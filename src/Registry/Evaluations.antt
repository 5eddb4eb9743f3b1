-- ===== src/Registry/Evaluations.antt =====
-- experiments/registry.py: `register_evaluation`, and what it uses of experiments/evaluation.py. What
-- the loaders of the files return is an argument.
use llm_arbitrage_system.Base.{
  ℕ, String, Bool, true, false, not, ◌&&◌, Option, none, some, List, [], ◌∷◌, ◌++◌, str_eq,
}
use llm_arbitrage_system.Base.Tests.{if◌then◌else◌}
use llm_arbitrage_system.Base.Lists.{select, any}
use llm_arbitrage_system.Base.Result.{Result, ok, err, raise_if, or_raise, ◌>>=◌, ◌>>◌}
use llm_arbitrage_system.Base.Int.{ℤ, pos}
use llm_arbitrage_system.Json.{Json, int, string, object, Fields, end, field, get_field, same}
use llm_arbitrage_system.Registry.Schema.{
  RegisteredEvaluation, Tables, RegistryError, evaluation_conflict, integrity_error,
  not_planned_once, invalid_record, record_mismatch, not_the_test_slice, not_the_candidate,
  experiment_changed, Method, Reply, already_registered, registered, evaluation_row,
}
use llm_arbitrage_system.Registry.Methods.{
  AttestationVerificationResult, Bundle, Identity, manifest_identity, import_bundle,
}

-- `MatrixEvaluation.window`, whose keys `_parse_evaluation` has checked, and that its positions are in
-- order from zero on.
pub record EvaluationWindow : Type 0 where
  pub index : ℤ
  pub train_start : ℕ
  pub train_end : ℕ
  pub test_start : ℕ
  pub test_end : ℕ
  pub purge_size : ℕ

abbrev pub window_json : EvaluationWindow → Json
window_json w = object (
    field "index" (int w.index) (
      field "train_start" (int (pos w.train_start)) (
        field "train_end" (int (pos w.train_end)) (
          field "test_start" (int (pos w.test_start)) (
            field "test_end" (int (pos w.test_end))
              (field "purge_size" (int (pos w.purge_size)) end))))))

-- `MatrixEvaluation`, without the overrides
pub record MatrixEvaluation : Type 0 where
  pub evaluation_id : String
  pub candidate_id : String
  pub candidate_config_sha256 : String
  pub window : EvaluationWindow
  pub train_semantic_sha256 : String
  pub test_semantic_sha256 : String

pub record ExperimentMatrixSnapshot : Type 0 where
  pub dataset_semantic_sha256 : String
  pub evaluations : List MatrixEvaluation
  pub semantic_sha256 : String

abbrev pub only : {A : Type 0} → List A → Option A
only [] = none
only (x ∷ []) = some x
only (x ∷ y ∷ rest) = none

-- `ExperimentMatrixSnapshot.evaluation`, `none` where it raises
unfoldable pub planned_evaluation : ExperimentMatrixSnapshot → String → Option MatrixEvaluation
planned_evaluation matrix evaluation_id =
    only (select (λ item. str_eq item.evaluation_id evaluation_id) matrix.evaluations)

-- What `register_evaluation` is called with, the files loaded; `record_json` is `_json(record)`, and
-- `record` is `none` where `load_evaluation_record` raises.
pub record EvaluationRequest : Type 0 where
  pub matrix : ExperimentMatrixSnapshot
  pub evaluation_id : String
  pub bundle : Bundle
  pub entry : Option Fields
  pub record_json : String
  pub verified : AttestationVerificationResult
  pub allow_untrusted : Bool

-- `expected_values`
abbrev pub expected_values : EvaluationRequest → MatrixEvaluation → Identity → Fields
expected_values r planned identity = field "evaluation_id" (string r.evaluation_id) (
    field "matrix_sha256" (string r.matrix.semantic_sha256) (
      field "candidate_id" (string planned.candidate_id) (
        field "candidate_config_sha256" (string planned.candidate_config_sha256) (
          field "source_dataset_semantic_sha256" (string r.matrix.dataset_semantic_sha256) (
            field "test_semantic_sha256" (string planned.test_semantic_sha256) (
              field "train_semantic_sha256" (string planned.train_semantic_sha256) (
                field "window" (window_json planned.window) (
                  field "experiment_id" (string identity.experiment_id)
                    (field "run_id" (string identity.run_id) end)))))))))

-- `record.get(key) == expected` for all of them
abbrev pub agrees : Fields → Fields → Bool
agrees end entry = true
agrees (field key expected rest) entry =
    elim (get_field key entry) [ none ↦ false | some value ↦ same value expected ]
    && agrees rest entry

-- All that `register_evaluation` checks before it imports the bundle.
unfoldable pub check_evaluation :
    EvaluationRequest → Result RegistryError (MatrixEvaluation × Identity)
unfolding planned_evaluation
check_evaluation r = do
  planned ← or_raise (planned_evaluation r.matrix r.evaluation_id) not_planned_once
  entry ← or_raise r.entry invalid_record
  identity ← manifest_identity r.bundle.manifest
  raise_if (not (agrees (expected_values r planned identity) entry)) record_mismatch
  raise_if (not (str_eq identity.dataset_hash planned.test_semantic_sha256)) not_the_test_slice
  raise_if (not (str_eq identity.config_hash planned.candidate_config_sha256)) not_the_candidate
  ok (planned, identity)

abbrev pub has_evaluation : String → List RegisteredEvaluation → Bool
has_evaluation experiment_id = any (λ r. str_eq r.experiment_id experiment_id)

abbrev pub new_evaluation :
    EvaluationRequest → MatrixEvaluation → String → String → RegisteredEvaluation
new_evaluation r planned experiment_id now = record {
  evaluation_id = r.evaluation_id;
  experiment_id = experiment_id;
  matrix_sha256 = r.matrix.semantic_sha256;
  candidate_id = planned.candidate_id;
  candidate_config_sha256 = planned.candidate_config_sha256;
  test_semantic_sha256 = planned.test_semantic_sha256;
  train_semantic_sha256 = planned.train_semantic_sha256;
  window_index = planned.window.index;
  evaluation_json = r.record_json;
  registered_at = now;
}

-- What `register_evaluation` does after the import: `experiment_id` is UNIQUE.
unfoldable pub insert_registered :
    EvaluationRequest → MatrixEvaluation → String → String → Method Reply
insert_registered r planned experiment_id now s =
    elim (evaluation_row r.evaluation_id s.evaluations) [
      | some row ↦
          if str_eq row.experiment_id experiment_id
          then ok (already_registered, s)
          else err evaluation_conflict
      | none ↦ do
        raise_if (has_evaluation experiment_id s.evaluations) integrity_error
        ok (
          registered,
          record s {
            evaluations = s.evaluations ++ new_evaluation r planned experiment_id now ∷ [];
          },
        )
    ]

-- A call's effect on the tables, `s` where it raises.
abbrev pub settle :
    {A : Type 0} → Tables → Result RegistryError (A × Tables) → Tables × Result RegistryError A
settle s (ok (reply, s')) = (s', ok reply)
settle s (err error) = (s, err error)

-- The import is committed before the evaluation is inserted: what raises after it leaves the
-- experiment imported.
unfoldable pub after_import :
    EvaluationRequest
    → MatrixEvaluation
    → Identity
    → String
    → Result RegistryError ((String × Reply) × Tables)
    → Tables
    → Tables × Result RegistryError Reply
unfolding insert_registered
after_import r planned identity now (err error) s = (s, err error)
after_import r planned identity now (ok ((experiment_id, imported), s')) s =
    if str_eq experiment_id identity.experiment_id
    then settle s' (insert_registered r planned experiment_id now s')
    else (s', err experiment_changed)

unfoldable pub register_evaluation :
    EvaluationRequest → String → Tables → Tables × Result RegistryError Reply
unfolding after_import
register_evaluation r now s = elim (check_evaluation r) [
  | err error ↦ (s, err error)
  | ok (planned, identity) ↦
      after_import r planned identity now
        (import_bundle r.verified r.bundle r.allow_untrusted now s) s
]
