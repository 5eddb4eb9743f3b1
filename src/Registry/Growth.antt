-- ===== src/Registry/Growth.antt =====
-- What no sequence of calls takes back from the registry.
use llm_arbitrage_system.Base.{List, [], ◌∷◌, refl}
use llm_arbitrage_system.Base.Extends.{Extends, Extends-same, Extends-then}
use llm_arbitrage_system.Registry.Schema.{Tables}
use llm_arbitrage_system.Registry.Methods.{new_experiment}
use llm_arbitrage_system.Registry.Evaluations.{new_evaluation}
use llm_arbitrage_system.Registry.Changes.{
  RegistryCall, after, Permission, edges_to, Change, same, key_added, lineage_added,
  experiment_added, evaluation_added,
}
use llm_arbitrage_system.Registry.Sequences.{after-keeps}

pub record Grows (s t : Tables) : Type 0 where
  pub keys : Extends s.trusted_keys t.trusted_keys
  pub nodes : Extends s.lineage_nodes t.lineage_nodes
  pub edges : Extends s.lineage_edges t.lineage_edges
  pub experiments : Extends s.experiments t.experiments
  pub evaluations : Extends s.evaluations t.evaluations

Grows-same : (s : Tables) → Grows s s
Grows-same s = record {
  keys = Extends-same s.trusted_keys;
  nodes = Extends-same s.lineage_nodes;
  edges = Extends-same s.lineage_edges;
  experiments = Extends-same s.experiments;
  evaluations = Extends-same s.evaluations;
}

Grows-then : (s t u : Tables) → Grows s t → Grows t u → Grows s u
Grows-then s t u g h = record {
  keys = Extends-then s.trusted_keys _ _ g.keys h.keys;
  nodes = Extends-then s.lineage_nodes _ _ g.nodes h.nodes;
  edges = Extends-then s.lineage_edges _ _ g.edges h.edges;
  experiments = Extends-then s.experiments _ _ g.experiments h.experiments;
  evaluations = Extends-then s.evaluations _ _ g.evaluations h.evaluations;
}

pub Change-Grows : (H : Permission) (s t : Tables) → Change H s t → Grows s t
Change-Grows H s _ same = Grows-same s
Change-Grows H s _ (key_added k) = record {
  keys = (k ∷ [], refl);
  nodes = Extends-same s.lineage_nodes;
  edges = Extends-same s.lineage_edges;
  experiments = Extends-same s.experiments;
  evaluations = Extends-same s.evaluations;
}
Change-Grows H s _ (lineage_added n parents absent known) = record {
  keys = Extends-same s.trusted_keys;
  nodes = (n ∷ [], refl);
  edges = (edges_to n.lineage_id parents, refl);
  experiments = Extends-same s.experiments;
  evaluations = Extends-same s.evaluations;
}
Change-Grows H s _
      (experiment_added identity verified bundle allowed trusted replay performance now _ _ _ _ _) =
    record {
      keys = Extends-same s.trusted_keys;
      nodes = Extends-same s.lineage_nodes;
      edges = Extends-same s.lineage_edges;
      experiments =
          (new_experiment identity verified bundle trusted replay performance now ∷ [], refl);
      evaluations = Extends-same s.evaluations;
    }
Change-Grows H s _ (evaluation_added r planned identity now x _ _ _ _ _ _) = record {
  keys = Extends-same s.trusted_keys;
  nodes = Extends-same s.lineage_nodes;
  edges = Extends-same s.lineage_edges;
  experiments = Extends-same s.experiments;
  evaluations = (new_evaluation r planned identity.experiment_id now ∷ [], refl);
}

-- Whatever calls follow, and whether they return or raise, the five tables only have rows added
-- behind those they hold: no key, lineage, experiment or evaluation changes or goes.
pub after-Grows : (calls : List RegistryCall) (s : Tables) → Grows s (after calls s)
after-Grows calls s =
    after-keeps (Grows s) (λ t u change grown. Grows-then s t u grown (Change-Grows _ t u change))
      calls s (Grows-same s)
