-- ===== src/Registry/Schema.antt =====
-- experiments/registry.py: the five tables of `ExperimentRegistry`, its errors, and the lookups by key.
use llm_arbitrage_system.Base.{String, Bool, true, false, Option, none, some, List, str_eq}
use llm_arbitrage_system.Base.Int.{ℤ}
use llm_arbitrage_system.Base.Lists.{first?}
use llm_arbitrage_system.Base.Result.{Result}

-- A row of `trusted_keys`.
pub record TrustedKey : Type 0 where
  pub key_id : String
  pub algorithm : String
  pub public_key_base64 : String
  pub label : Option String
  pub added_at : String

-- A row of `lineage_nodes`.
pub record LineageNode : Type 0 where
  pub lineage_id : String
  pub dataset_semantic_sha256 : String
  pub kind : String
  pub manifest_json : String
  pub imported_at : String

-- A row of `lineage_edges`.
pub record LineageEdge : Type 0 where
  pub lineage_id : String
  pub parent_lineage_id : String

-- A row of `experiments`.
pub record ExperimentRow : Type 0 where
  pub experiment_id : String
  pub run_id : String
  pub bundle_path : String
  pub bundle_root_sha256 : String
  pub signer_key_id : String
  pub trusted : Bool
  pub lineage_id : Option String
  pub dataset_semantic_sha256 : String
  pub config_canonical_sha256 : String
  pub manifest_json : String
  pub replay_report_json : String
  pub performance_report_json : String
  pub imported_at : String

-- A row of `evaluations`.
pub record RegisteredEvaluation : Type 0 where
  pub evaluation_id : String
  pub experiment_id : String
  pub matrix_sha256 : String
  pub candidate_id : String
  pub candidate_config_sha256 : String
  pub test_semantic_sha256 : String
  pub train_semantic_sha256 : String
  pub window_index : ℤ
  pub evaluation_json : String
  pub registered_at : String

pub record Tables : Type 0 where
  pub trusted_keys : List TrustedKey
  pub lineage_nodes : List LineageNode
  pub lineage_edges : List LineageEdge
  pub experiments : List ExperimentRow
  pub evaluations : List RegisteredEvaluation

pub data RegistryError : Type 0 where
  key_collision signer_not_trusted invalid_manifest invalid_report : RegistryError
  unknown_parent lineage_conflict unknown_lineage lineage_mismatch : RegistryError
  experiment_conflict evaluation_conflict integrity_error : RegistryError
  not_planned_once invalid_record record_mismatch : RegistryError
  not_the_test_slice not_the_candidate experiment_changed : RegistryError
  foreign_key_error missing_key integrity_failed : RegistryError

-- A method that raises leaves the tables as they were.
abbrev pub Method : Type 0 → Type 0
Method A = Tables → Result RegistryError (A × Tables)

-- The "status" of a reply.
pub data Reply : Type 0 where
  already_registered registered : Reply

-- `SELECT … WHERE key_id = ?`, and so on: the columns are primary keys
abbrev pub key_row : String → List TrustedKey → Option TrustedKey
key_row key_id = first? (λ r. str_eq r.key_id key_id)

abbrev pub node_row : String → List LineageNode → Option LineageNode
node_row lineage_id = first? (λ r. str_eq r.lineage_id lineage_id)

abbrev pub experiment_row : String → List ExperimentRow → Option ExperimentRow
experiment_row experiment_id = first? (λ r. str_eq r.experiment_id experiment_id)

abbrev pub evaluation_row : String → List RegisteredEvaluation → Option RegisteredEvaluation
evaluation_row evaluation_id = first? (λ r. str_eq r.evaluation_id evaluation_id)

abbrev pub is_found : {A : Type 0} → Option A → Bool
is_found none = false
is_found (some _) = true
