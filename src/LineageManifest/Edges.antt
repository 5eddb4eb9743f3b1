-- ===== src/LineageManifest/Edges.antt =====
-- The INSERTs of the edges to parents of which none occurs twice.
use llm_arbitrage_system.Base.{
  String, ◌≡◌, refl, ap, true, false, ◌&&◌, none, List, [], ◌∷◌, ◌++◌, str_eq, eq_iff, arith,
}
use llm_arbitrage_system.Base.Lists.{any, any-append, any-weaken}
use llm_arbitrage_system.Base.Result.{ok}
use llm_arbitrage_system.Registry.Schema.{is_found, node_row, LineageNode, LineageEdge}
use llm_arbitrage_system.Registry.Rows.{found-append}
use llm_arbitrage_system.Registry.Methods.{lacks_parent, has_edge, insert_edges}
use llm_arbitrage_system.Registry.Reads.{edge_broken}
use llm_arbitrage_system.Base.Extends.{append_nil, append_assoc}
use llm_arbitrage_system.Registry.Changes.{edges_to}
use llm_arbitrage_system.LineageManifest.{occurs_again}

module _ (child : String) (nodes : List LineageNode) where
  -- None of the edges to the parents is there.
  abbrev pub Fresh : List String → List LineageEdge → Type 0
  Fresh parents edges = any (λ p. has_edge child p edges) parents ≡ false

  has_edge-added :
      (parent p : String) (edges : List LineageEdge)
      → has_edge child p edges ≡ false
      → str_eq p parent ≡ false
      → has_edge child p (edges ++ record { lineage_id = child; parent_lineage_id = parent } ∷ [])
        ≡ false
  has_edge-added parent p edges absent other =
      any-append _ _ edges _ (λ e h. h) absent
        (ground (arith, eq_iff parent p, eq_iff p parent, other))

  Fresh-added :
      (parent : String) (parents : List String) (edges : List LineageEdge)
      → Fresh parents edges
      → any (λ y. str_eq y parent) parents ≡ false
      → Fresh parents (edges ++ record { lineage_id = child; parent_lineage_id = parent } ∷ [])
  Fresh-added parent [] edges fresh others = refl
  Fresh-added parent (p ∷ parents) edges fresh others =
      ground (arith, has_edge-added parent p edges, Fresh-added parent parents edges, fresh, others)

  pub insert_edges-distinct :
      (parents : List String) (edges : List LineageEdge)
      → is_found (node_row child nodes) ≡ true
      → lacks_parent parents nodes ≡ false
      → occurs_again parents ≡ false
      → Fresh parents edges
      → insert_edges child nodes parents edges ≡ ok (edges ++ edges_to child parents)
  unfolding insert_edges
  insert_edges-distinct [] edges here known distinct fresh = ap ok (append_nil edges)
  insert_edges-distinct (parent ∷ parents) edges here known distinct fresh =
      let edge : LineageEdge = record { lineage_id = child; parent_lineage_id = parent } in
      let rest : insert_edges child nodes parents (edges ++ edge ∷ [])
          ≡ ok ((edges ++ edge ∷ []) ++ edges_to child parents) =
        insert_edges-distinct parents (edges ++ edge ∷ []) here (ground (arith, known))
          (ground (arith, distinct))
          (Fresh-added parent parents edges (ground (arith, fresh)) (ground (arith, distinct))) in
      let new : has_edge child parent edges ≡ false = ground (arith, fresh) in
      let there : is_found (node_row parent nodes) ≡ true = ground (arith, known) in
      rw (new, here, there, rest) (ap ok (append_assoc edges (edge ∷ []) (edges_to child parents)))

  pub edge-other :
      (e : LineageEdge)
      → node_row child nodes ≡ none
      → edge_broken nodes e ≡ false
      → str_eq e.lineage_id child ≡ false
  edge-other e absent kept = ground (arith, eq_iff e.lineage_id child, absent, kept)

  -- A child without a row has no edge.
  pub Fresh-absent :
      (parents : List String) (edges : List LineageEdge)
      → any (λ e. str_eq e.lineage_id child) edges ≡ false
      → Fresh parents edges
  Fresh-absent [] edges none_of_child = refl
  Fresh-absent (p ∷ parents) edges none_of_child = ground (
    arith,
    any-weaken (λ e. str_eq e.lineage_id child)
        (λ e. str_eq e.lineage_id child && str_eq e.parent_lineage_id p) edges (λ e h. ground arith)
        none_of_child,
    Fresh-absent parents edges none_of_child,
  )

pub lacks_parent-more :
    (parents : List String) (nodes more : List LineageNode)
    → lacks_parent parents nodes ≡ false
    → lacks_parent parents (nodes ++ more) ≡ false
lacks_parent-more parents nodes more known =
    any-weaken _ _ parents
      (λ p h. ground (arith, found-append (λ n. str_eq n.lineage_id p) nodes more, h)) known
