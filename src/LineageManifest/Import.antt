-- ===== src/LineageManifest/Import.antt =====
-- experiments/lineage.py with experiments/registry.py: a manifest that the parser accepts, imported.
use llm_arbitrage_system.Base.{
  String, ◌≡◌, refl, subst, true, false, not, ◌&&◌, Option, none, some, List, [], ◌∷◌, ◌++◌, str_eq,
  eq_iff, arith,
}
use llm_arbitrage_system.Base.Lists.{any, any-weaken, first?-last}
use llm_arbitrage_system.Base.Result.{ok, returned, ok-injective, passed}
use llm_arbitrage_system.Json.{Json, Fields, get_field, Canonical}
use llm_arbitrage_system.Registry.Schema.{
  is_found, node_row, Tables, registered, already_registered,
}
use llm_arbitrage_system.Registry.Rows.{found-last}
use llm_arbitrage_system.Registry.Methods.{Lineage, lacks_parent, node_of, import_lineage}
use llm_arbitrage_system.Registry.Changes.{RegistryCall, after, empty, edges_to}
use llm_arbitrage_system.Registry.Sequences.{after-keeps}
use llm_arbitrage_system.Registry.Integrity.{IsSound, Change-IsSound, empty-IsSound}
use llm_arbitrage_system.LineageManifest.{
  DatasetLineageManifest, occurs_again, sort_texts, is_empty, checked_parents, read_parents,
  sequence_or_empty, read_manifest, parse_lineage_manifest, has_unknown, lineage_fields,
  is_first_version, sha256_text, stripped_string, is_listed, read_operation, optional_uri,
  read_notes, check_supplied, lineage_hash,
}
use llm_arbitrage_system.LineageManifest.Edges.{
  edge-other, Fresh-absent, insert_edges-distinct, lacks_parent-more,
}

-- The parents of a manifest: none occurs twice, and there are none exactly for a source.
pub record HasParents (kind : String) (parents : List String) : Type 0 where
  pub distinct : occurs_again parents ≡ false
  pub source : is_empty parents ≡ str_eq kind "source"

checked_parents-HasParents :
    (kind : String) (value : Option Json) (parents : List String)
    → checked_parents kind value ≡ ok parents
    → HasParents kind parents
unfolding checked_parents
checked_parents-HasParents kind value parents h =
    let (items, _, h1) = returned _ _ (sequence_or_empty value "parents") h in
    let (unsorted, _, h2) = returned _ _ (read_parents items) h1 in
    let (distinct, h3) = passed (occurs_again (sort_texts unsorted)) _ _ _ h2 in
    let (source, h4) =
      passed (str_eq kind "source" && not (is_empty (sort_texts unsorted))) _ _ _ h3 in
    let (derived, h5) =
      passed (not (str_eq kind "source") && is_empty (sort_texts unsorted)) _ _ _ h4 in
    subst (HasParents kind) (ok-injective _ _ h5)
      (record { distinct = distinct; source = ground (arith, source, derived) })

read_manifest-HasParents :
    (payload : Fields) (m : DatasetLineageManifest)
    → read_manifest payload ≡ ok m
    → HasParents m.kind m.parents
unfolding read_manifest
read_manifest-HasParents payload m h =
    let (_, h1) = passed (has_unknown lineage_fields payload) _ _ _ h in
    let (_, h2) = passed (not (is_first_version (get_field "schema_version" payload))) _ _ _ h1 in
    let (_, _, h3) =
      returned _ _
        (sha256_text (get_field "dataset_semantic_sha256" payload) "dataset_semantic_sha256") h2 in
    let (kind, _, h4) = returned _ _ (stripped_string (get_field "kind" payload) "kind") h3 in
    let (_, h5) = passed (not (is_listed ("derived" ∷ "slice" ∷ "source" ∷ []) kind)) _ _ _ h4 in
    let (_, _, h6) = returned _ _ (read_operation (get_field "operation" payload)) h5 in
    let (parents, p, h7) = returned _ _ (checked_parents kind (get_field "parents" payload)) h6 in
    let (_, _, h8) = returned _ _ (optional_uri (get_field "source_uri" payload)) h7 in
    let (items, _, h9) = returned _ _ (sequence_or_empty (get_field "notes" payload) "notes") h8 in
    let (_, _, h10) = returned _ _ (read_notes items) h9 in
    subst (λ n. HasParents n.kind n.parents) (ok-injective _ m h10)
      (checked_parents-HasParents kind (get_field "parents" payload) parents p)

pub parse-HasParents :
    (C : Canonical) (payload : Fields) (m : DatasetLineageManifest)
    → parse_lineage_manifest C payload ≡ ok m
    → HasParents m.kind m.parents
unfolding parse_lineage_manifest
parse-HasParents C payload m h =
    let (read, r, h1) = returned _ _ (read_manifest payload) h in
    let (_, _, h2) =
      returned _ _ (check_supplied (get_field "lineage_id" payload) (lineage_hash C read)) h1 in
    let (_, h3) = passed (is_listed read.parents (lineage_hash C read)) _ _ _ h2 in
    subst (λ n. HasParents n.kind n.parents) (ok-injective _ m h3)
      (read_manifest-HasParents payload read r)

-- What the registry reads of a manifest.
abbrev pub lineage_of : DatasetLineageManifest → String → Lineage
lineage_of m text = record {
  lineage_id = m.lineage_id;
  dataset_semantic_sha256 = m.dataset_semantic_sha256;
  kind = m.kind;
  parents = m.parents;
  text = text;
}

-- The registry as it is after any calls on an empty one, and a lineage that is not in it.
module _ (calls : List RegistryCall) (lineage : Lineage) (now : String) where
  abbrev pub with_lineage : Tables
  with_lineage = record (after calls empty) {
    lineage_nodes = (after calls empty).lineage_nodes ++ node_of lineage now ∷ [];
    lineage_edges =
        (after calls empty).lineage_edges ++ edges_to lineage.lineage_id lineage.parents;
  }

  module _ (absent : node_row lineage.lineage_id (after calls empty).lineage_nodes ≡ none)
      (known : lacks_parent lineage.parents (after calls empty).lineage_nodes ≡ false) where
    import_lineage-distinct :
        occurs_again lineage.parents ≡ false
        → import_lineage lineage now (after calls empty) ≡ ok (registered, with_lineage)
    unfolding import_lineage
    import_lineage-distinct distinct =
        let s = after calls empty in
        let sound = after-keeps IsSound (Change-IsSound _) calls empty empty-IsSound in
        let nodes = s.lineage_nodes ++ node_of lineage now ∷ [] in
        let none_of_child : any (λ e. str_eq e.lineage_id lineage.lineage_id) s.lineage_edges
            ≡ false =
          any-weaken _ _ s.lineage_edges
            (λ e. edge-other lineage.lineage_id s.lineage_nodes e absent) sound.edges in
        let here : is_found (node_row lineage.lineage_id nodes) ≡ true =
          found-last (λ n. str_eq n.lineage_id lineage.lineage_id) (node_of lineage now)
            s.lineage_nodes ((eq_iff lineage.lineage_id lineage.lineage_id).1 refl) in
        let inserted =
          insert_edges-distinct lineage.lineage_id nodes lineage.parents s.lineage_edges here
            (lacks_parent-more lineage.parents s.lineage_nodes (node_of lineage now ∷ []) known)
            distinct
            (Fresh-absent lineage.lineage_id nodes lineage.parents s.lineage_edges none_of_child) in
        rw (known, absent, inserted) refl

    import_lineage-again :
        (later : String)
        → import_lineage lineage later with_lineage ≡ ok (already_registered, with_lineage)
    unfolding import_lineage
    import_lineage-again later =
        let nodes = (after calls empty).lineage_nodes in
        let found : node_row lineage.lineage_id (nodes ++ node_of lineage now ∷ [])
            ≡ some (node_of lineage now) =
          first?-last (λ n. str_eq n.lineage_id lineage.lineage_id) nodes (node_of lineage now)
            absent ((eq_iff lineage.lineage_id lineage.lineage_id).1 refl) in
        let known_still : lacks_parent lineage.parents (nodes ++ node_of lineage now ∷ []) ≡ false =
          lacks_parent-more lineage.parents nodes (node_of lineage now ∷ []) known in
        let text : str_eq lineage.text lineage.text ≡ true =
          (eq_iff lineage.text lineage.text).1 refl in
        rw (known_still, found, text) refl

-- Whatever calls were made of a registry that was empty: a manifest that `parse_lineage_manifest`
-- accepts, whose id has no row there and each of whose parents has one, is registered by
-- `import_lineage`, which adds its row and one edge to each parent and changes nothing else, so no
-- INSERT violates a key. Imported again, at any later time, it is reported as registered and nothing
-- changes.
pub import_lineage-parse :
    (calls : List RegistryCall) (C : Canonical) (payload : Fields) (m : DatasetLineageManifest)
    (text now later : String)
    → parse_lineage_manifest C payload ≡ ok m
    → node_row m.lineage_id (after calls empty).lineage_nodes ≡ none
    → lacks_parent m.parents (after calls empty).lineage_nodes ≡ false
    → (import_lineage (lineage_of m text) now (after calls empty)
        ≡ ok (registered, with_lineage calls (lineage_of m text) now))
      × (import_lineage (lineage_of m text) later (with_lineage calls (lineage_of m text) now)
          ≡ ok (already_registered, with_lineage calls (lineage_of m text) now))
import_lineage-parse calls C payload m text now later parsed absent known =
    let lineage = lineage_of m text in
    (
      import_lineage-distinct calls lineage now absent known
          (parse-HasParents C payload m parsed).distinct,
      import_lineage-again calls lineage now absent known later,
    )
