-- ===== src/Registry/Ancestry.antt =====
-- The lineages that the registry holds have no cycle.
use llm_arbitrage_system.Base.{
  ℕ, suc, ◌<◌, String, ◌≡◌, ◌≢◌, refl, subst, inl, inr, true, false, ◌&&◌, none, List, [], ◌∷◌,
  ◌++◌, str_eq, eq_iff, arith,
}
use llm_arbitrage_system.Base.Tests.{if◌then◌else◌, Bool-cases}
use llm_arbitrage_system.Base.Lists.{All}
use llm_arbitrage_system.Registry.Schema.{LineageNode, LineageEdge, Tables, node_row, is_found}
use llm_arbitrage_system.Registry.Methods.{has_edge, lacks_parent}
use llm_arbitrage_system.Registry.Changes.{
  RegistryCall, after, empty, Permission, edges_to, Change, same, key_added, lineage_added,
  experiment_added, evaluation_added,
}
use llm_arbitrage_system.Registry.Rows.{found-append, found-last}
use llm_arbitrage_system.Registry.Sequences.{after-keeps}

-- The second lineage is reached from the first by one edge or more, from a child to its parent.
pub data Ancestor (edges : List LineageEdge) : String → String → Type 0 where
  parent_of :
      (child parent : String) → has_edge child parent edges ≡ true → Ancestor edges child parent
  further :
      (child middle ancestor : String)
      → Ancestor edges child middle
      → Ancestor edges middle ancestor
      → Ancestor edges child ancestor

-- Where a lineage stands in the table.
abbrev position : String → List LineageNode → ℕ
position id [] = 0
position id (n ∷ nodes) = if str_eq n.lineage_id id then 0 else suc (position id nodes)

abbrev Ordered : List LineageNode → LineageEdge → Type 0
Ordered nodes e =
    (is_found (node_row e.lineage_id nodes) ≡ true)
    × (is_found (node_row e.parent_lineage_id nodes) ≡ true)
    × (position e.parent_lineage_id nodes < position e.lineage_id nodes)

position-known :
    (id : String) (nodes more : List LineageNode)
    → is_found (node_row id nodes) ≡ true
    → position id (nodes ++ more) ≡ position id nodes
position-known id [] more h = absurd (cc)
position-known id (n ∷ nodes) more h = ground (arith, position-known id nodes more)

position-last :
    (n : LineageNode) (id : String) (nodes : List LineageNode)
    → is_found (node_row id nodes) ≡ true
    → node_row n.lineage_id nodes ≡ none
    → position id nodes < position n.lineage_id (nodes ++ n ∷ [])
position-last n id [] h absent = absurd (cc)
position-last n id (m ∷ nodes) h absent =
    ground
      (arith, eq_iff m.lineage_id n.lineage_id, eq_iff m.lineage_id id, position-last n id nodes)

Ordered-append :
    (nodes more : List LineageNode) (e : LineageEdge) → Ordered nodes e → Ordered (nodes ++ more) e
Ordered-append nodes more e (child, parent, less) = (
  found-append _ nodes more child,
  found-append _ nodes more parent,
  omega (
    arith,
    less,
    position-known e.lineage_id nodes more child,
    position-known e.parent_lineage_id nodes more parent,
  ),
)

edges-Ordered :
    (nodes more : List LineageNode) (edges added : List LineageEdge)
    → All (Ordered nodes) edges
    → All (Ordered (nodes ++ more)) added
    → All (Ordered (nodes ++ more)) (edges ++ added)
edges-Ordered nodes more [] added old new = new
edges-Ordered nodes more (e ∷ edges) added old new =
    (Ordered-append nodes more e old.0, edges-Ordered nodes more edges added old.1 new)

-- The parents of a new lineage stand in the table already.
edges_to-Ordered :
    (n : LineageNode) (nodes : List LineageNode) (parents : List String)
    → node_row n.lineage_id nodes ≡ none
    → lacks_parent parents nodes ≡ false
    → All (Ordered (nodes ++ n ∷ [])) (edges_to n.lineage_id parents)
edges_to-Ordered n nodes [] absent known = tt
edges_to-Ordered n nodes (parent ∷ parents) absent known =
    let found : is_found (node_row parent nodes) ≡ true = ground (arith, known) in
    (
      (
        found-last _ n nodes ((eq_iff n.lineage_id n.lineage_id).1 refl),
        found-append _ nodes (n ∷ []) found,
        omega (
          arith,
          position-known parent nodes (n ∷ []) found,
          position-last n parent nodes found absent,
        ),
      ),
      edges_to-Ordered n nodes parents absent (ground (arith, known)),
    )

abbrev IsOrdered : Tables → Type 0
IsOrdered s = All (Ordered s.lineage_nodes) s.lineage_edges

Change-IsOrdered : (H : Permission) (s t : Tables) → Change H s t → IsOrdered s → IsOrdered t
Change-IsOrdered H s _ same old = old
Change-IsOrdered H s _ (key_added k) old = old
Change-IsOrdered H s _ (lineage_added n parents absent known) old =
    edges-Ordered s.lineage_nodes (n ∷ []) s.lineage_edges (edges_to n.lineage_id parents) old
      (edges_to-Ordered n s.lineage_nodes parents absent known)
Change-IsOrdered H s _ (experiment_added _ _ _ _ _ _ _ _ _ _ _ _ _) old = old
Change-IsOrdered H s _ (evaluation_added _ _ _ _ _ _ _ _ _ _ _) old = old

edge-less :
    (nodes : List LineageNode) (edges : List LineageEdge) (child parent : String)
    → All (Ordered nodes) edges
    → has_edge child parent edges ≡ true
    → position parent nodes < position child nodes
edge-less nodes [] child parent all h = absurd (cc)
edge-less nodes (e ∷ edges) child parent all h =
    elim (Bool-cases (str_eq e.lineage_id child && str_eq e.parent_lineage_id parent)) [
      | inl here ↦
          subst (λ c. position parent nodes < position c nodes)
            ((eq_iff e.lineage_id child).0 (ground (arith, here)))
            (subst (λ p. position p nodes < position e.lineage_id nodes)
              ((eq_iff e.parent_lineage_id parent).0 (ground (arith, here))) all.0.2)
      | inr there ↦ edge-less nodes edges child parent all.1 (ground (arith, there, h))
    ]

Ancestor-less :
    (nodes : List LineageNode) (edges : List LineageEdge) (child ancestor : String)
    → All (Ordered nodes) edges
    → Ancestor edges child ancestor
    → position ancestor nodes < position child nodes
Ancestor-less nodes edges _ _ all (parent_of child parent h) =
    edge-less nodes edges child parent all h
Ancestor-less nodes edges _ _ all (further child middle ancestor near far) = omega (
  arith,
  Ancestor-less nodes edges child middle all near,
  Ancestor-less nodes edges middle ancestor all far,
)

-- In the tables that any calls make of empty ones, no lineage is an ancestor of itself.
pub after-Ancestor :
    (calls : List RegistryCall) (child ancestor : String)
    → Ancestor (after calls empty).lineage_edges child ancestor
    → child ≢ ancestor
after-Ancestor calls child ancestor chain same_id =
    let s = after calls empty in
    let less =
      Ancestor-less s.lineage_nodes s.lineage_edges child ancestor
        (after-keeps IsOrdered (Change-IsOrdered _) calls empty tt) chain in
    omega (
      arith,
      subst (λ c. position ancestor s.lineage_nodes < position c s.lineage_nodes) same_id less,
    )
