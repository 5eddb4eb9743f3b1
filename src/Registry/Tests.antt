-- ===== src/Registry/Tests.antt =====
-- A registry with a trusted key, a lineage and its slice, and one evaluation.
use llm_arbitrage_system.Base.{
  String, ◌≡◌, ◌≢◌, refl, true, false, none, some, List, [], ◌∷◌, str_eq,
}
use llm_arbitrage_system.Base.Int.{pos}
use llm_arbitrage_system.Base.Lists.{All, length, count_if}
use llm_arbitrage_system.Base.Result.{ok}
use llm_arbitrage_system.Json.{Fields, same, string, object, end, field}
use llm_arbitrage_system.Registry.Methods.{
  SigningKeyIdentity, Lineage, AttestationVerificationResult, Bundle, trust_public_key,
  import_lineage, insert_edges, import_bundle, signer_trusted, manifest_identity, check_lineage,
  insert_experiment,
}
use llm_arbitrage_system.Registry.Evaluations.{
  EvaluationWindow, MatrixEvaluation, EvaluationRequest, window_json, planned_evaluation,
  check_evaluation, insert_registered, after_import, register_evaluation,
}
use llm_arbitrage_system.Registry.Reads.{evaluation_rows, counts, verify}
use llm_arbitrage_system.Registry.Changes.{
  RegistryCall, trusts, imports_lineage, registers, apply, after, empty,
}
use llm_arbitrage_system.Registry.Growth.{Grows, after-Grows}
use llm_arbitrage_system.Registry.Ancestry.{Ancestor, parent_of, after-Ancestor}
use llm_arbitrage_system.Registry.Integrity.{verify-after}
use llm_arbitrage_system.Registry.Evidence.{Backed, after-Backed}
use llm_arbitrage_system.Registry.Trust.{evaluation_rows-trusted}
use llm_arbitrage_system.Registry.WriteOnce.{Writes, view, after-Writes}

abbrev signing_key : SigningKeyIdentity
signing_key = record { key_id = "k1"; algorithm = "Ed25519"; public_key_base64 = "AAAA" }

abbrev source : Lineage
source = record {
  lineage_id = "lineage-1";
  dataset_semantic_sha256 = "d1";
  kind = "source";
  parents = [];
  text = "{1}";
}

abbrev derived : Lineage
derived = record {
  lineage_id = "lineage-2";
  dataset_semantic_sha256 = "d2";
  kind = "slice";
  parents = "lineage-1" ∷ [];
  text = "{2}";
}

abbrev manifest : Fields
manifest = field "experiment_id" (string "experiment-1") (
    field "run_id" (string "run-1") (
      field "dataset" (object (field "semantic_sha256" (string "d2") end))
        (field "configuration" (object (field "canonical_sha256" (string "c1") end)) end)))

abbrev bundle : Bundle
bundle = record {
  path = "/bundle";
  manifest = manifest;
  manifest_json = "{m}";
  replay_json = some "{r}";
  performance_json = some "{p}";
}

abbrev attested : AttestationVerificationResult
attested = record {
  key_id = "k1";
  public_key_base64 = "AAAA";
  bundle_root_sha256 = "root";
  lineage_id = some "lineage-2";
}

abbrev window : EvaluationWindow
window = record {
  index = pos 0;
  train_start = 0;
  train_end = 2;
  test_start = 2;
  test_end = 3;
  purge_size = 0;
}

abbrev planned : MatrixEvaluation
planned = record {
  evaluation_id = "evaluation-1";
  candidate_id = "candidate-1";
  candidate_config_sha256 = "c1";
  window = window;
  train_semantic_sha256 = "t1";
  test_semantic_sha256 = "d2";
}

abbrev entry : Fields
entry = field "schema_version" (string "1") (
    field "window" (window_json window) (
      field "evaluation_id" (string "evaluation-1") (
        field "matrix_sha256" (string "m1") (
          field "candidate_id" (string "candidate-1") (
            field "candidate_config_sha256" (string "c1") (
              field "source_dataset_semantic_sha256" (string "d1") (
                field "test_semantic_sha256" (string "d2") (
                  field "train_semantic_sha256" (string "t1") (
                    field "experiment_id" (string "experiment-1")
                      (field "run_id" (string "run-1") end))))))))))

abbrev request : EvaluationRequest
request = record {
  matrix = record {
    dataset_semantic_sha256 = "d1";
    evaluations = planned ∷ [];
    semantic_sha256 = "m1";
  };
  evaluation_id = "evaluation-1";
  bundle = bundle;
  entry = some entry;
  record_json = "{e}";
  verified = attested;
  allow_untrusted = false;
}

abbrev calls : List RegistryCall
calls =
    trusts signing_key none "t0"
    ∷ imports_lineage source "t1"
    ∷ imports_lineage derived "t2"
    ∷ registers request "t3"
    ∷ registers request "t4"
    ∷ []

calls_counted :
    verify true (after calls empty)
    ≡ ok (record {
      trusted_keys = 1;
      lineage_nodes = 2;
      lineage_edges = 1;
      experiments = 1;
      evaluations = 1;
    })
unfolding verify apply trust_public_key import_lineage insert_edges register_evaluation
    check_evaluation planned_evaluation manifest_identity after_import insert_registered
    import_bundle signer_trusted check_lineage insert_experiment same
calls_counted = refl

after-Grows_example : Grows empty (after calls empty)
after-Grows_example = after-Grows calls empty

slice_Ancestor : Ancestor (after calls empty).lineage_edges "lineage-2" "lineage-1"
unfolding apply trust_public_key import_lineage insert_edges register_evaluation check_evaluation
    planned_evaluation manifest_identity after_import insert_registered import_bundle signer_trusted
    check_lineage insert_experiment same
slice_Ancestor = parent_of "lineage-2" "lineage-1" refl

after-Ancestor_example : ◌≢◌ {A = String} "lineage-2" "lineage-1"
after-Ancestor_example = after-Ancestor calls "lineage-2" "lineage-1" slice_Ancestor

verify-after_example : verify true (after calls empty) ≡ ok (counts (after calls empty))
verify-after_example = verify-after calls true

after-Backed_example : All (Backed (after calls empty).experiments) (after calls empty).evaluations
after-Backed_example = after-Backed (λ root. manifest) calls (tt, (tt, (tt, (refl, (refl, tt)))))

after-Writes_example : Writes (view empty) (view (after calls empty))
after-Writes_example = after-Writes calls empty

evaluation_rows-trusted_example :
    (length (evaluation_rows "m1" (after calls empty))
      ≡ count_if (λ e. str_eq e.matrix_sha256 "m1") (after calls empty).evaluations)
    × All (λ report. report.trusted ≡ true) (evaluation_rows "m1" (after calls empty))
evaluation_rows-trusted_example =
    evaluation_rows-trusted calls "m1" (tt, (tt, (tt, (refl, (refl, tt)))))
