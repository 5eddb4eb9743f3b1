-- ===== src/Registry/Effects.antt =====
-- What each method of the registry does to the tables: nothing where it raises or finds the row.
use llm_arbitrage_system.Base.{
  String, ◌≡◌, refl, sym, ◌∙◌, subst, inl, inr, Bool, ◌&&◌, Option, none, some, List, [], ◌∷◌, ◌++◌,
  str_eq, eq_iff, arith, not,
}
use llm_arbitrage_system.Base.Extends.{append_nil, append_assoc}
use llm_arbitrage_system.Base.Tests.{Bool-cases, Option-cases}
use llm_arbitrage_system.Base.Lists.{first?-last}
use llm_arbitrage_system.Base.Result.{Result, ok, err, raise_if, returned, Result-cases}
use llm_arbitrage_system.Registry.Schema.{
  LineageNode, LineageEdge, ExperimentRow, Tables, key_row, node_row, experiment_row,
  evaluation_row, is_found, integrity_error, Reply, RegistryError,
}
use llm_arbitrage_system.Registry.Methods.{
  SigningKeyIdentity, trust_public_key, Lineage, node_of, lacks_parent, insert_edges,
  import_lineage, AttestationVerificationResult, Bundle, Identity, manifest_identity,
  signer_trusted, check_lineage, new_experiment, insert_experiment, import_bundle, key_of, has_edge,
  has_run_id,
}
use llm_arbitrage_system.Registry.Evaluations.{
  MatrixEvaluation, EvaluationRequest, check_evaluation, has_evaluation, insert_registered, settle,
}
use llm_arbitrage_system.Registry.Changes.{
  Permission, edges_to, Change, same, Changes, no_change, one_more, key_added, lineage_added,
  experiment_added, evaluation_added,
}

insert_edges-ok :
    (child : String) (nodes : List LineageNode) (parents : List String)
    (edges out : List LineageEdge)
    → insert_edges child nodes parents edges ≡ ok out
    → out ≡ edges ++ edges_to child parents
unfolding insert_edges
insert_edges-ok child nodes [] edges out h = ground (arith, append_nil edges, h)
insert_edges-ok child nodes (parent ∷ parents) edges out h =
    let (_, _, h1) = returned _ _ (raise_if (has_edge child parent edges) integrity_error) h in
    let (_, _, h2) =
      returned _ _
        (raise_if (not (is_found (node_row child nodes) && is_found (node_row parent nodes)))
          integrity_error)
        h1 in
    insert_edges-ok child nodes parents _ out h2 ∙ append_assoc edges _ _

module _ (H : Permission) where
  pub trust_public_key-Change :
      (identity : SigningKeyIdentity) (label : Option String) (now : String) (s : Tables)
      → Change H s (settle s (trust_public_key identity label now s)).0
  unfolding trust_public_key
  trust_public_key-Change identity label now s =
      elim (Option-cases (key_row identity.key_id s.trusted_keys)) [
        | inl e ↦ rw (e, settle, trust_public_key) (key_added (key_of identity label now))
        | inr (row, e) ↦
            elim (Bool-cases (str_eq row.public_key_base64 identity.public_key_base64)) [
              | inl h ↦ rw (e, h, settle, trust_public_key) same
              | inr h ↦ rw (e, h, settle, trust_public_key) same
            ]
      ]

  pub import_lineage-Change :
      (manifest : Lineage) (now : String) (s : Tables)
      → Change H s (settle s (import_lineage manifest now s)).0
  unfolding import_lineage
  import_lineage-Change manifest now s =
      elim (Bool-cases (lacks_parent manifest.parents s.lineage_nodes)) [
        | inl lacks ↦ rw lacks same
        | inr has ↦ elim (Option-cases (node_row manifest.lineage_id s.lineage_nodes)) [
          | inr (row, e) ↦ elim (Bool-cases (str_eq row.manifest_json manifest.text)) [
            | inl h ↦ rw (has, e, h) same
            | inr h ↦ rw (has, e, h) same
          ]
          | inl e ↦
              elim (Result-cases (
                insert_edges manifest.lineage_id (s.lineage_nodes ++ node_of manifest now ∷ [])
                  manifest.parents s.lineage_edges)) [
                    | inl (edges, inserted) ↦
                        rw (has, e, inserted)
                          (subst
                            (λ out. Change H s (record s {
                              lineage_nodes = s.lineage_nodes ++ node_of manifest now ∷ [];
                              lineage_edges = out;
                            }))
                            (sym (
                              insert_edges-ok manifest.lineage_id _ manifest.parents s.lineage_edges
                                edges inserted))
                            (lineage_added (node_of manifest now) manifest.parents e has))
                    | inr (error, failed) ↦ rw (has, e, failed) same
                  ]
        ]
      ]

-- The experiment of a manifest stands in the table with the root hash that was attested.
pub record Present (verified : AttestationVerificationResult) (identity : Identity) (s : Tables)
    : Type 0 where
  pub row : ExperimentRow
  pub found : experiment_row identity.experiment_id s.experiments ≡ some row
  pub root : row.bundle_root_sha256 ≡ verified.bundle_root_sha256

-- What an import did, where it returned.
abbrev pub Imports :
    Permission
    → AttestationVerificationResult
    → Bundle
    → Tables
    → Result RegistryError ((String × Reply) × Tables)
    → Type 0
Imports H verified bundle s (err error) = Unit
Imports H verified bundle s (ok ((experiment_id, reply), s')) =
    (identity : Identity) × (manifest_identity bundle.manifest ≡ ok identity)
    × (experiment_id ≡ identity.experiment_id)
    × Change H s s'
    × Present verified identity s'

insert_experiment-Imports :
    (H : Permission) (verified : AttestationVerificationResult) (bundle : Bundle)
    (identity : Identity) (allowed trusted : Bool) (now : String) (s : Tables)
    → H verified bundle allowed
    → manifest_identity bundle.manifest ≡ ok identity
    → signer_trusted verified allowed s ≡ ok trusted
    → check_lineage verified.lineage_id identity.dataset_hash s ≡ ok tt
    → experiment_row identity.experiment_id s.experiments ≡ none
    → Imports H verified bundle s (import_bundle verified bundle allowed now s)
unfolding import_bundle insert_experiment
insert_experiment-Imports H verified bundle identity allowed trusted now s permitted names signed
      kept absent =
    elim (Option-cases bundle.replay_json) [
      | inl r ↦ rw (signed, names, kept, absent, r) tt
      | inr (replay, r) ↦ elim (Option-cases bundle.performance_json) [
        | inl p ↦ rw (signed, names, kept, absent, r, p) tt
        | inr (performance, p) ↦ elim (Bool-cases (has_run_id identity.run_id s.experiments)) [
          | inl u ↦ rw (signed, names, kept, absent, r, p, u) tt
          | inr u ↦
              rw (signed, names, kept, absent, r, p, u)
                (
                  identity,
                  names,
                  refl,
                  experiment_added identity verified bundle allowed trusted replay performance now
                      permitted names signed kept absent,
                  record {
                    row = new_experiment identity verified bundle trusted replay performance now;
                    found =
                        first?-last _ s.experiments _ absent
                          ((eq_iff identity.experiment_id identity.experiment_id).1 refl);
                    root = refl;
                  },
                )
        ]
      ]
    ]

module _ (H : Permission) where
  pub import_bundle-Imports :
      (verified : AttestationVerificationResult) (bundle : Bundle) (allowed : Bool) (now : String)
      (s : Tables)
      → H verified bundle allowed
      → Imports H verified bundle s (import_bundle verified bundle allowed now s)
  unfolding import_bundle
  import_bundle-Imports verified bundle allowed now s permitted =
      elim (Result-cases (signer_trusted verified allowed s)) [
        | inr (error, e) ↦ rw e tt
        | inl (trusted, signed) ↦ elim (Result-cases (manifest_identity bundle.manifest)) [
          | inr (error, e) ↦ rw (signed, e) tt
          | inl (identity, names) ↦
              elim (Result-cases (check_lineage verified.lineage_id identity.dataset_hash s)) [
                | inr (error, e) ↦ rw (signed, names, e) tt
                | inl (tt, kept) ↦
                    elim (Option-cases (experiment_row identity.experiment_id s.experiments)) [
                      | inl absent ↦
                          insert_experiment-Imports H verified bundle identity allowed trusted now s
                            permitted names signed kept absent
                      | inr (row, found) ↦
                          elim (Bool-cases (
                            str_eq row.bundle_root_sha256 verified.bundle_root_sha256
                            && str_eq row.signer_key_id verified.key_id)) [
                              | inr h ↦ rw (signed, names, kept, found, h) tt
                              | inl h ↦
                                  rw (signed, names, kept, found, h)
                                    (
                                      identity,
                                      names,
                                      refl,
                                      same,
                                      record {
                                        row = row;
                                        found = found;
                                        root =
                                            (eq_iff row.bundle_root_sha256
                                                verified.bundle_root_sha256).0
                                              (ground (arith, h));
                                      },
                                    )
                            ]
                    ]
              ]
        ]
      ]

  -- The evaluation is inserted on top of what the import changed.
  pub insert_registered-Changes :
      (r : EvaluationRequest) (planned : MatrixEvaluation) (identity : Identity) (now : String)
      (s s' : Tables)
      → H r.verified r.bundle r.allow_untrusted
      → check_evaluation r ≡ ok (planned, identity)
      → Change H s s'
      → Present r.verified identity s'
      → Changes H s (settle s' (insert_registered r planned identity.experiment_id now s')).0
  unfolding insert_registered
  insert_registered-Changes r planned identity now s s' permitted checked imported present =
      let so_far = one_more s s' no_change imported in
      elim (Option-cases (evaluation_row r.evaluation_id s'.evaluations)) [
        | inr (row, e) ↦ elim (Bool-cases (str_eq row.experiment_id identity.experiment_id)) [
          | inl h ↦ rw (e, h, settle, insert_registered) so_far
          | inr h ↦ rw (e, h, settle, insert_registered) so_far
        ]
        | inl absent ↦ elim (Bool-cases (has_evaluation identity.experiment_id s'.evaluations)) [
          | inl h ↦ rw (absent, h, settle, insert_registered) so_far
          | inr h ↦
              rw (absent, h, settle, insert_registered)
                (one_more s' _ so_far (
                  evaluation_added r planned identity now present.row permitted checked
                    present.found present.root absent h))
        ]
      ]
