-- ===== src/Registry/Methods.antt =====
-- experiments/registry.py: the methods that trust a key, import a lineage and import a bundle. What
-- the loaders and `verify_attestation` return is an argument, and so are the times of `_now`.
use llm_arbitrage_system.Base.{
  String, Bool, true, false, not, ◌&&◌, Option, none, some, List, [], ◌∷◌, ◌++◌, str_eq,
}
use llm_arbitrage_system.Base.Tests.{if◌then◌else◌}
use llm_arbitrage_system.Base.Lists.{any}
use llm_arbitrage_system.Base.Result.{Result, ok, err, raise_if, or_raise, ◌>>=◌, ◌>>◌}
use llm_arbitrage_system.Json.{Fields, required_string, nested_string}
use llm_arbitrage_system.Registry.Schema.{
  ExperimentRow, LineageEdge, LineageNode, Method, RegistryError, Reply, Tables, TrustedKey,
  already_registered, experiment_conflict, experiment_row, integrity_error, invalid_manifest,
  invalid_report, is_found, key_collision, key_row, lineage_conflict, lineage_mismatch, node_row,
  registered, signer_not_trusted, unknown_lineage, unknown_parent,
}

-- `SigningKeyIdentity`
pub record SigningKeyIdentity : Type 0 where
  pub key_id : String
  pub algorithm : String
  pub public_key_base64 : String

abbrev pub key_of : SigningKeyIdentity → Option String → String → TrustedKey
key_of identity label now = record {
  key_id = identity.key_id;
  algorithm = identity.algorithm;
  public_key_base64 = identity.public_key_base64;
  label = label;
  added_at = now;
}

unfoldable pub trust_public_key : SigningKeyIdentity → Option String → String → Method Reply
trust_public_key identity label now s = elim (key_row identity.key_id s.trusted_keys) [
  | some row ↦
      if str_eq row.public_key_base64 identity.public_key_base64
      then ok (already_registered, s)
      else err key_collision
  | none ↦
      ok (registered, record s { trusted_keys = s.trusted_keys ++ key_of identity label now ∷ [] })
]

-- What `import_lineage` reads of `DatasetLineageManifest`; `text` is `_json(manifest.as_dict())`.
pub record Lineage : Type 0 where
  pub lineage_id : String
  pub dataset_semantic_sha256 : String
  pub kind : String
  pub parents : List String
  pub text : String

-- Some parent has no row.
abbrev pub lacks_parent : List String → List LineageNode → Bool
lacks_parent parents nodes = any (λ parent. not (is_found (node_row parent nodes))) parents

abbrev pub has_edge : String → String → List LineageEdge → Bool
has_edge child parent = any (λ e. str_eq e.lineage_id child && str_eq e.parent_lineage_id parent)

-- The INSERTs of the edges: the primary key is the pair, and both columns refer to a node.
unfoldable pub insert_edges :
    String
    → List LineageNode
    → List String
    → List LineageEdge
    → Result RegistryError (List LineageEdge)
insert_edges child nodes [] edges = ok edges
insert_edges child nodes (parent ∷ parents) edges = do
  raise_if (has_edge child parent edges) integrity_error
  raise_if (not (is_found (node_row child nodes) && is_found (node_row parent nodes)))
      integrity_error
  insert_edges child nodes parents
      (edges ++ record { lineage_id = child; parent_lineage_id = parent } ∷ [])

abbrev pub node_of : Lineage → String → LineageNode
node_of manifest now = record {
  lineage_id = manifest.lineage_id;
  dataset_semantic_sha256 = manifest.dataset_semantic_sha256;
  kind = manifest.kind;
  manifest_json = manifest.text;
  imported_at = now;
}

-- The transaction at the end is undone as a whole where an INSERT raises.
unfoldable pub import_lineage : Lineage → String → Method Reply
unfolding insert_edges
import_lineage manifest now s = do
  raise_if (lacks_parent manifest.parents s.lineage_nodes) unknown_parent
  elim (node_row manifest.lineage_id s.lineage_nodes) [
    | some row ↦
        if str_eq row.manifest_json manifest.text
        then ok (already_registered, s)
        else err lineage_conflict
    | none ↦ do
      let nodes = s.lineage_nodes ++ node_of manifest now ∷ []
      edges ← insert_edges manifest.lineage_id nodes manifest.parents s.lineage_edges
      ok (registered, record s { lineage_nodes = nodes; lineage_edges = edges })
  ]

-- `AttestationVerificationResult`, what `import_bundle` reads of it
pub record AttestationVerificationResult : Type 0 where
  pub key_id : String
  pub public_key_base64 : String
  pub bundle_root_sha256 : String
  pub lineage_id : Option String

-- The directory of a bundle: its path, its manifest as loaded, and as printed again by `_json`; a
-- report, printed again, is `none` where its file does not load.
pub record Bundle : Type 0 where
  pub path : String
  pub manifest : Fields
  pub manifest_json : String
  pub replay_json : Option String
  pub performance_json : Option String

-- The identity that a manifest names.
pub record Identity : Type 0 where
  pub experiment_id : String
  pub run_id : String
  pub dataset_hash : String
  pub config_hash : String

unfoldable pub manifest_identity : Fields → Result RegistryError Identity
manifest_identity manifest = do
  experiment_id ← or_raise (required_string manifest "experiment_id") invalid_manifest
  run_id ← or_raise (required_string manifest "run_id") invalid_manifest
  dataset_hash ← or_raise (nested_string manifest "dataset" "semantic_sha256") invalid_manifest
  config_hash ←
      or_raise (nested_string manifest "configuration" "canonical_sha256") invalid_manifest
  ok (record {
    experiment_id = experiment_id;
    run_id = run_id;
    dataset_hash = dataset_hash;
    config_hash = config_hash;
  })

-- The signer has a row; one with another key raises, and so does none unless it is allowed.
unfoldable pub signer_trusted :
    AttestationVerificationResult → Bool → Tables → Result RegistryError Bool
signer_trusted verified allow_untrusted s = elim (key_row verified.key_id s.trusted_keys) [
  | some row ↦
      if str_eq row.public_key_base64 verified.public_key_base64 then ok true else err key_collision
  | none ↦ if allow_untrusted then ok false else err signer_not_trusted
]

unfoldable pub check_lineage : Option String → String → Tables → Result RegistryError (Unit {0})
check_lineage none dataset_hash s = ok tt
check_lineage (some lineage_id) dataset_hash s = do
  row ← or_raise (node_row lineage_id s.lineage_nodes) unknown_lineage
  raise_if (not (str_eq row.dataset_semantic_sha256 dataset_hash)) lineage_mismatch

abbrev pub has_run_id : String → List ExperimentRow → Bool
has_run_id run_id = any (λ r. str_eq r.run_id run_id)

abbrev pub new_experiment :
    Identity
    → AttestationVerificationResult
    → Bundle
    → Bool
    → String
    → String
    → String
    → ExperimentRow
new_experiment identity verified bundle trusted replay performance now = record {
  experiment_id = identity.experiment_id;
  run_id = identity.run_id;
  bundle_path = bundle.path;
  bundle_root_sha256 = verified.bundle_root_sha256;
  signer_key_id = verified.key_id;
  trusted = trusted;
  lineage_id = verified.lineage_id;
  dataset_semantic_sha256 = identity.dataset_hash;
  config_canonical_sha256 = identity.config_hash;
  manifest_json = bundle.manifest_json;
  replay_report_json = replay;
  performance_report_json = performance;
  imported_at = now;
}

-- The INSERT into `experiments`, after the reports are loaded: `run_id` is UNIQUE.
unfoldable pub insert_experiment :
    Identity → AttestationVerificationResult → Bundle → Bool → String → Method Reply
insert_experiment identity verified bundle trusted now s = do
  replay ← or_raise bundle.replay_json invalid_report
  performance ← or_raise bundle.performance_json invalid_report
  raise_if (has_run_id identity.run_id s.experiments) integrity_error
  let row = new_experiment identity verified bundle trusted replay performance now
  ok (registered, record s { experiments = s.experiments ++ row ∷ [] })

-- `verified` is what `verify_attestation` returns for the two paths.
unfoldable pub import_bundle :
    AttestationVerificationResult → Bundle → Bool → String → Method (String × Reply)
unfolding signer_trusted manifest_identity check_lineage insert_experiment
import_bundle verified bundle allow_untrusted now s = do
  trusted ← signer_trusted verified allow_untrusted s
  identity ← manifest_identity bundle.manifest
  check_lineage verified.lineage_id identity.dataset_hash s
  elim (experiment_row identity.experiment_id s.experiments) [
    | some row ↦
        if str_eq row.bundle_root_sha256 verified.bundle_root_sha256
          && str_eq row.signer_key_id verified.key_id
        then ok ((identity.experiment_id, already_registered), s)
        else err experiment_conflict
    | none ↦ do
      done ← insert_experiment identity verified bundle trusted now s
      let (reply, s') = done
      ok ((identity.experiment_id, reply), s')
  ]
