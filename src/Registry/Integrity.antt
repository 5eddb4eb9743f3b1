-- ===== src/Registry/Integrity.antt =====
-- What `verify` answers.
use llm_arbitrage_system.Base.{
  String, ◌≡◌, refl, inl, inr, Bool, true, false, not, ◌&&◌, Option, none, some, List, [], ◌∷◌,
  ◌++◌, str_eq, eq_iff, arith,
}
use llm_arbitrage_system.Base.Tests.{if◌then◌else◌, Bool-cases, Option-cases}
use llm_arbitrage_system.Base.Lists.{any, any-append, any-weaken}
use llm_arbitrage_system.Base.Result.{ok, err}
use llm_arbitrage_system.Registry.Schema.{
  TrustedKey, LineageNode, LineageEdge, ExperimentRow, Tables, integrity_failed, key_row, node_row,
  is_found,
}
use llm_arbitrage_system.Registry.Methods.{
  lacks_parent, AttestationVerificationResult, signer_trusted, check_lineage, new_experiment,
}
use llm_arbitrage_system.Registry.Reads.{
  edge_broken, lineage_broken, evaluation_broken, lacks_key, counts, verify,
}
use llm_arbitrage_system.Registry.Changes.{
  RegistryCall, after, empty, Permission, edges_to, Change, same, key_added, lineage_added,
  experiment_added, evaluation_added,
}
use llm_arbitrage_system.Registry.Rows.{found-append, found-last}
use llm_arbitrage_system.Registry.Sequences.{after-keeps}

-- No reference of a row is dangling.
pub record IsSound (s : Tables) : Type 0 where
  pub edges : any (edge_broken s.lineage_nodes) s.lineage_edges ≡ false
  pub lineages : any (λ x. lineage_broken s.lineage_nodes x.lineage_id) s.experiments ≡ false
  pub evaluations : any (evaluation_broken s.experiments) s.evaluations ≡ false
  pub keys : any (lacks_key s.trusted_keys) s.experiments ≡ false

edge-append :
    (nodes more : List LineageNode) (e : LineageEdge)
    → edge_broken nodes e ≡ false
    → edge_broken (nodes ++ more) e ≡ false
edge-append nodes more e h = ground (
  arith,
  found-append (λ n. str_eq n.lineage_id e.lineage_id) nodes more,
  found-append (λ n. str_eq n.lineage_id e.parent_lineage_id) nodes more,
)

lineage-append :
    (nodes more : List LineageNode) (id : Option String)
    → lineage_broken nodes id ≡ false
    → lineage_broken (nodes ++ more) id ≡ false
lineage-append nodes more none h = refl
lineage-append nodes more (some id) h =
    ground (arith, found-append (λ n. str_eq n.lineage_id id) nodes more)

key-append :
    (keys more : List TrustedKey) (x : ExperimentRow)
    → lacks_key keys x ≡ false
    → lacks_key (keys ++ more) x ≡ false
key-append keys more x h =
    ground (arith, found-append (λ k. str_eq k.key_id x.signer_key_id) keys more)

edges_to_sound :
    (n : LineageNode) (nodes : List LineageNode) (parents : List String)
    → lacks_parent parents nodes ≡ false
    → any (edge_broken (nodes ++ n ∷ [])) (edges_to n.lineage_id parents) ≡ false
edges_to_sound n nodes [] h = refl
edges_to_sound n nodes (parent ∷ parents) h = ground (
  arith,
  found-append (λ m. str_eq m.lineage_id parent) nodes (n ∷ []),
  found-last (λ m. str_eq m.lineage_id n.lineage_id) n nodes,
  eq_iff n.lineage_id n.lineage_id,
  edges_to_sound n nodes parents,
)

signer_trusted-found :
    (verified : AttestationVerificationResult) (allowed : Bool) (s : Tables)
    → signer_trusted verified allowed s ≡ ok true
    → is_found (key_row verified.key_id s.trusted_keys) ≡ true
unfolding signer_trusted
signer_trusted-found verified allowed s h =
    elim (Option-cases (key_row verified.key_id s.trusted_keys)) [
      | inr (row, e) ↦ rw e refl
      | inl e ↦ elim (Bool-cases allowed) [
        | inl a ↦ absurd (ground (arith, e, a, h))
        | inr a ↦ absurd (ground (arith, e, a, h))
      ]
    ]

check_lineage-found :
    (id : Option String) (dataset_hash : String) (s : Tables)
    → check_lineage id dataset_hash s ≡ ok tt
    → lineage_broken s.lineage_nodes id ≡ false
unfolding check_lineage
check_lineage-found none dataset_hash s h = refl
check_lineage-found (some id) dataset_hash s h = elim (Option-cases (node_row id s.lineage_nodes)) [
  | inr (row, e) ↦ rw e refl
  | inl e ↦ absurd (ground (arith, e, h))
]

added-key :
    (trusted : Bool) (verified : AttestationVerificationResult) (allowed : Bool) (s : Tables)
    → signer_trusted verified allowed s ≡ ok trusted
    → (trusted && not (is_found (key_row verified.key_id s.trusted_keys))) ≡ false
added-key false verified allowed s h = refl
added-key true verified allowed s h = ground (arith, signer_trusted-found verified allowed s h)

pub Change-IsSound : (H : Permission) (s t : Tables) → Change H s t → IsSound s → IsSound t
Change-IsSound H s _ same old = old
Change-IsSound H s _ (key_added k) old = record {
  edges = old.edges;
  lineages = old.lineages;
  evaluations = old.evaluations;
  keys = any-weaken _ _ s.experiments (key-append s.trusted_keys (k ∷ [])) old.keys;
}
Change-IsSound H s _ (lineage_added n parents absent known) old = record {
  edges =
      any-append _ _ s.lineage_edges _ (edge-append s.lineage_nodes (n ∷ [])) old.edges
        (edges_to_sound n s.lineage_nodes parents known);
  lineages =
      any-weaken _ _ s.experiments (λ x. lineage-append s.lineage_nodes (n ∷ []) x.lineage_id)
        old.lineages;
  evaluations = old.evaluations;
  keys = old.keys;
}
Change-IsSound H s _
      (experiment_added identity verified bundle allowed trusted replay performance now _ _ signed
        kept _)
      old =
    let row = new_experiment identity verified bundle trusted replay performance now in
    record {
      edges = old.edges;
      lineages =
          any-append _ (λ x. lineage_broken s.lineage_nodes x.lineage_id) s.experiments (row ∷ [])
            (λ x h. h) old.lineages
            (ground (arith, check_lineage-found verified.lineage_id identity.dataset_hash s kept));
      evaluations =
          any-weaken _ _ s.evaluations
            (λ e h. ground (
              arith,
              found-append (λ x. str_eq x.experiment_id e.experiment_id) s.experiments (row ∷ []),
              h,
            ))
            old.evaluations;
      keys =
          any-append _ (lacks_key s.trusted_keys) s.experiments (row ∷ []) (λ x h. h) old.keys
            (ground (arith, added-key trusted verified allowed s signed));
    }
Change-IsSound H s _ (evaluation_added r planned identity now x _ _ found _ _ _) old = record {
  edges = old.edges;
  lineages = old.lineages;
  evaluations =
      any-append _ (evaluation_broken s.experiments) s.evaluations _ (λ e h. h) old.evaluations
        (rw found refl);
  keys = old.keys;
}

pub empty-IsSound : IsSound empty
empty-IsSound = record { edges = refl; lineages = refl; evaluations = refl; keys = refl }

-- Whatever calls were made of a registry that was empty, `verify` raises only where the database
-- reports damage: no reference is dangling and no trusted experiment lacks its key. It returns the
-- numbers of the rows.
pub verify-after :
    (calls : List RegistryCall) (integrity_ok : Bool)
    → verify integrity_ok (after calls empty)
      ≡ (if integrity_ok then ok (counts (after calls empty)) else err integrity_failed)
unfolding verify
verify-after calls false = refl
verify-after calls true =
    let sound = after-keeps IsSound (Change-IsSound _) calls empty empty-IsSound in
    rw (sound.edges, sound.lineages, sound.evaluations, sound.keys) refl
