-- ===== src/Registry/Changes.antt =====
-- The calls of the registry's methods, in sequence, and all that one call can do to the tables.
use llm_arbitrage_system.Base.{String, ◌≡◌, Bool, false, Option, none, some, List, [], ◌∷◌, ◌++◌}
use llm_arbitrage_system.Base.Result.{ok}
use llm_arbitrage_system.Registry.Schema.{
  TrustedKey, LineageNode, LineageEdge, ExperimentRow, Tables, node_row, experiment_row,
  evaluation_row,
}
use llm_arbitrage_system.Registry.Methods.{
  SigningKeyIdentity, trust_public_key, Lineage, lacks_parent, import_lineage,
  AttestationVerificationResult, Bundle, Identity, manifest_identity, signer_trusted, check_lineage,
  new_experiment, import_bundle,
}
use llm_arbitrage_system.Registry.Evaluations.{
  MatrixEvaluation, EvaluationRequest, check_evaluation, has_evaluation, new_evaluation,
  register_evaluation, settle,
}

pub data RegistryCall : Type 0 where
  trusts : SigningKeyIdentity → Option String → String → RegistryCall
  imports_lineage : Lineage → String → RegistryCall
  imports_bundle : AttestationVerificationResult → Bundle → Bool → String → RegistryCall
  registers : EvaluationRequest → String → RegistryCall

-- The tables after a call, whether it returns or raises.
unfoldable pub apply : RegistryCall → Tables → Tables
unfolding trust_public_key import_lineage import_bundle register_evaluation
apply (trusts identity label now) s = (settle s (trust_public_key identity label now s)).0
apply (imports_lineage manifest now) s = (settle s (import_lineage manifest now s)).0
apply (imports_bundle verified bundle allowed now) s =
    (settle s (import_bundle verified bundle allowed now s)).0
apply (registers r now) s = (register_evaluation r now s).0

abbrev pub after : List RegistryCall → Tables → Tables
after [] s = s
after (call ∷ calls) s = after calls (apply call s)

abbrev pub empty : Tables
empty = record {
  trusted_keys = [];
  lineage_nodes = [];
  lineage_edges = [];
  experiments = [];
  evaluations = [];
}

-- A property of the bundles that calls import, with the argument `allow_untrusted`.
abbrev pub Permission : Type 1
Permission = AttestationVerificationResult → Bundle → Bool → Type 0

abbrev pub Permits : Permission → RegistryCall → Type 0
Permits H (trusts identity label now) = Unit
Permits H (imports_lineage manifest now) = Unit
Permits H (imports_bundle verified bundle allowed now) = H verified bundle allowed
Permits H (registers r now) = H r.verified r.bundle r.allow_untrusted

abbrev pub edges_to : String → List String → List LineageEdge
edges_to child [] = []
edges_to child (parent ∷ parents) =
    record { lineage_id = child; parent_lineage_id = parent } ∷ edges_to child parents

abbrev pub add_lineage : LineageNode → List String → Tables → Tables
add_lineage n parents s = record s {
  lineage_nodes = s.lineage_nodes ++ n ∷ [];
  lineage_edges = s.lineage_edges ++ edges_to n.lineage_id parents;
}

-- One INSERT, or the node and the edges of one lineage, with what its guards have checked.
pub data Change (H : Permission) (s : Tables) : Tables → Type 0 where
  same : Change H s s
  key_added : (k : TrustedKey) → Change H s (record s { trusted_keys = s.trusted_keys ++ k ∷ [] })
  lineage_added :
      (n : LineageNode) (parents : List String)
      → node_row n.lineage_id s.lineage_nodes ≡ none
      → lacks_parent parents s.lineage_nodes ≡ false
      → Change H s (add_lineage n parents s)
  experiment_added :
      (identity : Identity) (verified : AttestationVerificationResult) (bundle : Bundle)
      (allowed trusted : Bool) (replay performance now : String)
      → H verified bundle allowed
      → manifest_identity bundle.manifest ≡ ok identity
      → signer_trusted verified allowed s ≡ ok trusted
      → check_lineage verified.lineage_id identity.dataset_hash s ≡ ok tt
      → experiment_row identity.experiment_id s.experiments ≡ none
      → Change H s (record s {
        experiments =
            s.experiments
            ++ new_experiment identity verified bundle trusted replay performance now ∷ [];
      })
  evaluation_added :
      (r : EvaluationRequest) (planned : MatrixEvaluation) (identity : Identity) (now : String)
      (x : ExperimentRow)
      → H r.verified r.bundle r.allow_untrusted
      → check_evaluation r ≡ ok (planned, identity)
      → experiment_row identity.experiment_id s.experiments ≡ some x
      → x.bundle_root_sha256 ≡ r.verified.bundle_root_sha256
      → evaluation_row r.evaluation_id s.evaluations ≡ none
      → has_evaluation identity.experiment_id s.evaluations ≡ false
      → Change H s (record s {
        evaluations = s.evaluations ++ new_evaluation r planned identity.experiment_id now ∷ [];
      })

-- Any number of changes, one after the other.
pub data Changes (H : Permission) (s : Tables) : Tables → Type 0 where
  no_change : Changes H s s
  one_more : (t u : Tables) → Changes H s t → Change H t u → Changes H s u
