-- ===== src/Registry/Reads.antt =====
-- experiments/registry.py: the methods that only read, `evaluation_rows` and `verify`.
use Prim.Native.String.{compare as compare_text}
use text.Mathlib.Text.{is_eq, is_lt}
use llm_arbitrage_system.Base.{
  ℕ, String, Bool, false, not, ◌&&◌, ◌||◌, Option, none, some, List, [], ◌∷◌, str_eq,
}
use llm_arbitrage_system.Base.Tests.{if◌then◌else◌}
use llm_arbitrage_system.Base.Int.{ℤ, ltb_ℤ}
use llm_arbitrage_system.Base.Lists.{length, select, any}
use llm_arbitrage_system.Base.Result.{Result, ok, raise_if, ◌>>◌}
use llm_arbitrage_system.Registry.Schema.{
  TrustedKey, LineageNode, LineageEdge, ExperimentRow, RegisteredEvaluation, Tables, RegistryError,
  foreign_key_error, missing_key, integrity_failed, key_row, node_row, experiment_row, is_found,
}

-- A row of `evaluation_rows`
pub record EvaluationReport : Type 0 where
  pub evaluation_id : String
  pub candidate_id : String
  pub window_index : ℤ
  pub performance_report : String
  pub replay_report : String
  pub trusted : Bool

-- `ORDER BY e.candidate_id, e.window_index`
abbrev pub comes_before : RegisteredEvaluation → RegisteredEvaluation → Bool
comes_before a b =
    let order = compare_text a.candidate_id b.candidate_id in
    is_lt order || (is_eq order && not (ltb_ℤ b.window_index a.window_index))

abbrev pub insert_row : RegisteredEvaluation → List RegisteredEvaluation → List RegisteredEvaluation
insert_row r [] = r ∷ []
insert_row r (x ∷ xs) = if comes_before r x then r ∷ x ∷ xs else x ∷ insert_row r xs

abbrev pub order_rows : List RegisteredEvaluation → List RegisteredEvaluation
order_rows [] = []
order_rows (r ∷ rows) = insert_row r (order_rows rows)

-- The JOIN: an evaluation without its experiment gives no row.
abbrev pub join_experiments : List ExperimentRow → List RegisteredEvaluation → List EvaluationReport
join_experiments experiments [] = []
join_experiments experiments (e ∷ rows) =
    let rest = join_experiments experiments rows in
    elim (experiment_row e.experiment_id experiments) [
      | none ↦ rest
      | some x ↦
          record {
            evaluation_id = e.evaluation_id;
            candidate_id = e.candidate_id;
            window_index = e.window_index;
            performance_report = x.performance_report_json;
            replay_report = x.replay_report_json;
            trusted = x.trusted;
          }
          ∷ rest
    ]

unfoldable pub evaluation_rows : String → Tables → List EvaluationReport
evaluation_rows matrix_sha256 s =
    join_experiments s.experiments
      (order_rows (select (λ e. str_eq e.matrix_sha256 matrix_sha256) s.evaluations))

-- `RegistrySummary`, without the integrity string
pub record RegistrySummary : Type 0 where
  pub trusted_keys : ℕ
  pub lineage_nodes : ℕ
  pub lineage_edges : ℕ
  pub experiments : ℕ
  pub evaluations : ℕ

abbrev pub edge_broken : List LineageNode → LineageEdge → Bool
edge_broken nodes e =
    not (is_found (node_row e.lineage_id nodes))
    || not (is_found (node_row e.parent_lineage_id nodes))

abbrev pub lineage_broken : List LineageNode → Option String → Bool
lineage_broken nodes none = false
lineage_broken nodes (some lineage_id) = not (is_found (node_row lineage_id nodes))

abbrev pub evaluation_broken : List ExperimentRow → RegisteredEvaluation → Bool
evaluation_broken experiments e = not (is_found (experiment_row e.experiment_id experiments))

-- `PRAGMA foreign_key_check` returns rows
abbrev pub foreign_keys_broken : Tables → Bool
foreign_keys_broken s =
    any (edge_broken s.lineage_nodes) s.lineage_edges
    || any (λ x. lineage_broken s.lineage_nodes x.lineage_id) s.experiments
    || any (evaluation_broken s.experiments) s.evaluations

-- A trusted experiment whose key is missing, as the LEFT JOIN finds it.
abbrev pub lacks_key : List TrustedKey → ExperimentRow → Bool
lacks_key keys x = x.trusted && not (is_found (key_row x.signer_key_id keys))

-- `_count` of each table
abbrev pub counts : Tables → RegistrySummary
counts s = record {
  trusted_keys = length s.trusted_keys;
  lineage_nodes = length s.lineage_nodes;
  lineage_edges = length s.lineage_edges;
  experiments = length s.experiments;
  evaluations = length s.evaluations;
}

-- `verify`; whether `PRAGMA integrity_check` answers "ok" is an argument.
unfoldable pub verify : Bool → Tables → Result RegistryError RegistrySummary
verify integrity_ok s = do
  raise_if (not integrity_ok) integrity_failed
  raise_if (foreign_keys_broken s) foreign_key_error
  raise_if (any (lacks_key s.trusted_keys) s.experiments) missing_key
  ok (counts s)
