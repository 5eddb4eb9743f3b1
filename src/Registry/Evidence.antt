-- ===== src/Registry/Evidence.antt =====
-- The evidence behind a registered evaluation.
use llm_arbitrage_system.Base.{String, ◌≡◌, refl, sym, ap, ◌∙◌, subst, some, List, ◌++◌, str_eq}
use llm_arbitrage_system.Base.Lists.{All, All-weaken, All-append, All-first?, first?-append}
use llm_arbitrage_system.Base.Result.{ok-injective, ok}
use llm_arbitrage_system.Json.{Fields}
use llm_arbitrage_system.Registry.Schema.{
  ExperimentRow, RegisteredEvaluation, Tables, experiment_row,
}
use llm_arbitrage_system.Registry.Methods.{Identity, manifest_identity}
use llm_arbitrage_system.Registry.Evaluations.{
  MatrixEvaluation, EvaluationRequest, check_evaluation, new_evaluation,
}
use llm_arbitrage_system.Registry.Changes.{
  RegistryCall, after, empty, Permission, Permits, Change, same, key_added, lineage_added,
  experiment_added, evaluation_added,
}
use llm_arbitrage_system.Registry.Sequences.{check_evaluation-Planned, after-Changes, Changes-keep}

-- The registered experiment ran the planned test slice with the planned configuration.
pub record Backed (experiments : List ExperimentRow) (e : RegisteredEvaluation) : Type 0 where
  pub row : ExperimentRow
  pub found : experiment_row e.experiment_id experiments ≡ some row
  pub dataset : row.dataset_semantic_sha256 ≡ e.test_semantic_sha256
  pub config : row.config_canonical_sha256 ≡ e.candidate_config_sha256

Backed-append :
    (experiments more : List ExperimentRow) (e : RegisteredEvaluation)
    → Backed experiments e
    → Backed (experiments ++ more) e
Backed-append experiments more e b = record {
  row = b.row;
  found =
      first?-append (λ x. str_eq x.experiment_id e.experiment_id) experiments more b.row b.found;
  dataset = b.dataset;
  config = b.config;
}

-- `manifests` gives the manifest of the bundle that has a root hash.
module _ (manifests : String → Fields) where
  -- The bundle has the manifest of its attested root hash.
  abbrev pub HasManifest : Permission
  HasManifest verified bundle allowed = bundle.manifest ≡ manifests verified.bundle_root_sha256

  -- A row has the hashes that the manifest of its bundle names.
  record Copies (x : ExperimentRow) : Type 0 where
    identity : Identity
    names : manifest_identity (manifests x.bundle_root_sha256) ≡ ok identity
    dataset : x.dataset_semantic_sha256 ≡ identity.dataset_hash
    config : x.config_canonical_sha256 ≡ identity.config_hash

  record IsBacked (s : Tables) : Type 0 where
    copies : All Copies s.experiments
    backed : All (Backed s.experiments) s.evaluations

  new-Backed :
      (r : EvaluationRequest) (planned : MatrixEvaluation) (identity : Identity) (now : String)
      (x : ExperimentRow) (experiments : List ExperimentRow)
      → HasManifest r.verified r.bundle r.allow_untrusted
      → check_evaluation r ≡ ok (planned, identity)
      → experiment_row identity.experiment_id experiments ≡ some x
      → x.bundle_root_sha256 ≡ r.verified.bundle_root_sha256
      → Copies x
      → Backed experiments (new_evaluation r planned identity.experiment_id now)
  new-Backed r planned identity now x experiments manifest checked found root copied =
      let plan = check_evaluation-Planned r planned identity checked in
      let its_manifest : manifest_identity (manifests x.bundle_root_sha256) ≡ ok identity =
        (subst (λ m. manifest_identity m ≡ ok identity) (manifest ∙ sym (ap manifests root))
          plan.names) in
      let it_is = ok-injective copied.identity identity (sym copied.names ∙ its_manifest) in
      record {
        row = x;
        found = found;
        dataset = copied.dataset ∙ (ap (λ i. i.dataset_hash) it_is ∙ plan.dataset);
        config = copied.config ∙ (ap (λ i. i.config_hash) it_is ∙ plan.config);
      }

  Change-IsBacked : (s t : Tables) → Change HasManifest s t → IsBacked s → IsBacked t
  Change-IsBacked s _ same old = old
  Change-IsBacked s _ (key_added k) old = record { copies = old.copies; backed = old.backed }
  Change-IsBacked s _ (lineage_added n parents absent known) old = record {
    copies = old.copies;
    backed = old.backed;
  }
  Change-IsBacked s _
        (experiment_added identity verified bundle allowed trusted replay performance now manifest
          names _ _ _)
        old =
      record {
        copies =
            All-append s.experiments _ (λ x c. c) old.copies
              (
                record {
                  identity = identity;
                  names = subst (λ m. manifest_identity m ≡ ok identity) manifest names;
                  dataset = refl;
                  config = refl;
                },
                tt,
              );
        backed = All-weaken s.evaluations (Backed-append s.experiments _) old.backed;
      }
  Change-IsBacked s _ (evaluation_added r planned identity now x manifest checked found root _ _)
        old =
      record {
        copies = old.copies;
        backed =
            All-append s.evaluations _ (λ e b. b) old.backed
              (
                new-Backed r planned identity now x s.experiments manifest checked found root (
                    All-first? _ (λ y. str_eq y.experiment_id identity.experiment_id) s.experiments
                      x old.copies found),
                tt,
              );
      }

  -- From an empty registry, and calls whose bundles have the manifest of their attested root hash:
  -- the experiment of each evaluation is registered, and has the dataset and the configuration that
  -- the matrix planned for it, whatever calls came between.
  pub after-Backed :
      (calls : List RegistryCall)
      → All (Permits HasManifest) calls
      → All (Backed (after calls empty).experiments) (after calls empty).evaluations
  after-Backed calls permitted =
      (Changes-keep HasManifest IsBacked Change-IsBacked empty _
        (after-Changes HasManifest calls empty permitted)
        (record { copies = tt; backed = tt })).backed
