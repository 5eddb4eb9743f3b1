-- ===== src/Simulation/Pipeline/Steps.antt =====
-- The invariant at each step of a task.
use llm_arbitrage_system.Base.{
  ℕ, suc, ◌≤◌, ◌≡◌, ◌∙◌, refl, sym, ap, true, false, none, some, List, [], ◌∷◌, arith,
}
use llm_arbitrage_system.Base.Lists.{length}
use llm_arbitrage_system.Domain.Numbers.{Numbers}
use llm_arbitrage_system.Domain.Contracts.{MarketEvent}
use llm_arbitrage_system.Domain.Plans.{StrategyDecision}
use llm_arbitrage_system.Simulation.Pipeline.{Message, item, sentinel, send, Parts, Pipeline, Entry}
use llm_arbitrage_system.Simulation.Pipeline.Queues.{
  count_items, count_items-send, count_items-end, IsSound-send, IsSound-end, IsSound-take,
  IsSound-stop,
}
use llm_arbitrage_system.Simulation.Pipeline.Balance.{held, open_for, Counted, Balanced}

module _ (N : Numbers) (parts : Parts N) (size total : ℕ) where
  open parts use {Analytics, Gate}

  abbrev State : Type 0
  State = Pipeline N parts

  abbrev pub Good : State → Type 0
  Good = Balanced N parts size total

  abbrev Counts : State → Type 0
  Counts = Counted N parts size total

  pub produce-put :
      (s : State) (e : MarketEvent N) (entries : List (Entry N))
      → Good s
      → s.producing ≡ some e
      → length s.data_queue.items ≤ size
      → Good (record s {
        producing = none;
        journal = entries;
        data_queue = send (item e) s.data_queue;
      })
  produce-put s e entries b holds room =
      let open_queue =
        open_for s.data_queue.is_ended s.producing e holds (λ ended. (b.source ended).1) in
      let one_held = ap held holds in
      let one_more = count_items-send s.data_queue.items e in
      record {
        arrivals = IsSound-send size s.data_queue e open_queue room b.arrivals;
        decisions = b.decisions;
        approvals = b.approvals;
        source = λ ended. ((b.source ended).0, refl);
        analyst = b.analyst;
        approver = b.approver;
        executor = b.executor;
        counts = record {
          events = b.counts.events;
          created = b.counts.created;
          handed = b.counts.handed;
          listed = b.counts.listed;
          snapshots = (let was = b.counts.snapshots in omega arith);
          plans = b.counts.plans;
        };
      }

  pub produce-end :
      (s : State)
      → Good s
      → s.producing ≡ none
      → s.remaining ≡ []
      → s.data_queue.is_ended ≡ false
      → length s.data_queue.items ≤ size
      → Good (record s { data_queue = send sentinel s.data_queue })
  produce-end s b free nothing open_queue room =
      let same = count_items-end s.data_queue.items in
      record {
        arrivals = IsSound-end size s.data_queue open_queue room b.arrivals;
        decisions = b.decisions;
        approvals = b.approvals;
        source = λ ended. (nothing, free);
        analyst = b.analyst;
        approver = b.approver;
        executor = b.executor;
        counts = record {
          events = b.counts.events;
          created = b.counts.created;
          handed = b.counts.handed;
          listed = b.counts.listed;
          snapshots = (let was = b.counts.snapshots in omega arith);
          plans = b.counts.plans;
        };
      }

  pub produce-take :
      (s : State) (e : MarketEvent N) (es : List (MarketEvent N))
      → Good s
      → s.producing ≡ none
      → s.remaining ≡ e ∷ es
      → Good
          (record s { remaining = es; events_received = suc s.events_received; producing = some e })
  produce-take s e es b free more =
      let shorter = ap length more in
      let none_held = ap held free in
      record {
        arrivals = b.arrivals;
        decisions = b.decisions;
        approvals = b.approvals;
        source = λ ended. absurd (let bad = sym more ∙ (b.source ended).0 in cc);
        analyst = b.analyst;
        approver = b.approver;
        executor = b.executor;
        counts = record {
          events = (let was = b.counts.events in omega arith);
          created = b.counts.created;
          handed = b.counts.handed;
          listed = b.counts.listed;
          snapshots = (let was = b.counts.snapshots in omega arith);
          plans = b.counts.plans;
        };
      }

  pub analyze-put :
      (s : State) (d : StrategyDecision N) (entries : List (Entry N))
      → Good s
      → s.deciding ≡ some d
      → length s.decision_queue.items ≤ size
      → Good (record s {
        deciding = none;
        journal = entries;
        decision_queue = send (item d) s.decision_queue;
      })
  analyze-put s d entries b holds room =
      let open_queue = open_for s.decision_queue.is_ended s.deciding d holds b.analyst.1 in
      let one_held = ap held holds in
      let one_more = count_items-send s.decision_queue.items d in
      record {
        arrivals = b.arrivals;
        decisions = IsSound-send size s.decision_queue d open_queue room b.decisions;
        approvals = b.approvals;
        source = b.source;
        analyst = (b.analyst.0, λ ended. refl);
        approver = b.approver;
        executor = b.executor;
        counts = record {
          events = b.counts.events;
          created = (let was = b.counts.created in omega arith);
          handed = b.counts.handed;
          listed = b.counts.listed;
          snapshots = b.counts.snapshots;
          plans = b.counts.plans;
        };
      }

  pub analyze-end :
      (s : State) (rest : List (Message (MarketEvent N)))
      → Good s
      → s.deciding ≡ none
      → s.data_queue.items ≡ sentinel ∷ rest
      → length s.decision_queue.items ≤ size
      → Good (record s {
        data_queue = record s.data_queue { items = rest; is_drained = true };
        decision_queue = send sentinel s.decision_queue;
      })
  analyze-end s rest b free q room =
      let (undrained, stopped) = IsSound-stop size s.data_queue rest q b.arrivals in
      let fewer = ap count_items q in
      let same = count_items-end s.decision_queue.items in
      record {
        arrivals = stopped;
        decisions = IsSound-end size s.decision_queue (b.analyst.0 ∙ undrained) room b.decisions;
        approvals = b.approvals;
        source = b.source;
        analyst = (refl, λ ended. free);
        approver = b.approver;
        executor = b.executor;
        counts = record {
          events = b.counts.events;
          created = (let was = b.counts.created in omega arith);
          handed = b.counts.handed;
          listed = b.counts.listed;
          snapshots = (let was = b.counts.snapshots in omega arith);
          plans = b.counts.plans;
        };
      }

  -- The analysis of an event that was taken: no features, no plan, or a plan.
  pub analyze-no_features :
      (s : State) (e : MarketEvent N) (rest : List (Message (MarketEvent N))) (a : Analytics)
      → Good s
      → s.data_queue.items ≡ item e ∷ rest
      → Good (record s { data_queue = record s.data_queue { items = rest }; analytics = a })
  analyze-no_features s e rest a b q =
      let fewer = ap count_items q in
      record {
        arrivals = (IsSound-take size s.data_queue e rest q b.arrivals).1;
        decisions = b.decisions;
        approvals = b.approvals;
        source = b.source;
        analyst = b.analyst;
        approver = b.approver;
        executor = b.executor;
        counts = record {
          events = b.counts.events;
          created = b.counts.created;
          handed = b.counts.handed;
          listed = b.counts.listed;
          snapshots = (let was = b.counts.snapshots in omega arith);
          plans = b.counts.plans;
        };
      }

  pub analyze-no_plan :
      (s : State) (e : MarketEvent N) (rest : List (Message (MarketEvent N))) (a : Analytics)
      → Good s
      → s.data_queue.items ≡ item e ∷ rest
      → Good (record s {
        data_queue = record s.data_queue { items = rest };
        analytics = a;
        feature_snapshots = suc s.feature_snapshots;
      })
  analyze-no_plan s e rest a b q =
      let fewer = ap count_items q in
      record {
        arrivals = (IsSound-take size s.data_queue e rest q b.arrivals).1;
        decisions = b.decisions;
        approvals = b.approvals;
        source = b.source;
        analyst = b.analyst;
        approver = b.approver;
        executor = b.executor;
        counts = record {
          events = b.counts.events;
          created = b.counts.created;
          handed = b.counts.handed;
          listed = b.counts.listed;
          snapshots = (let was = b.counts.snapshots in omega arith);
          plans = (let was = b.counts.plans in omega arith);
        };
      }

  pub analyze-plan :
      (s : State) (e : MarketEvent N) (rest : List (Message (MarketEvent N))) (a : Analytics)
      (d : StrategyDecision N)
      → Good s
      → s.deciding ≡ none
      → s.data_queue.items ≡ item e ∷ rest
      → Good (record s {
        data_queue = record s.data_queue { items = rest };
        analytics = a;
        feature_snapshots = suc s.feature_snapshots;
        plans_created = suc s.plans_created;
        deciding = some d;
      })
  analyze-plan s e rest a d b free q =
      let (undrained, taken) = IsSound-take size s.data_queue e rest q b.arrivals in
      let fewer = ap count_items q in
      let none_held = ap held free in
      record {
        arrivals = taken;
        decisions = b.decisions;
        approvals = b.approvals;
        source = b.source;
        analyst =
            (b.analyst.0, λ ended. absurd (let bad = sym ended ∙ (b.analyst.0 ∙ undrained) in cc));
        approver = b.approver;
        executor = b.executor;
        counts = record {
          events = b.counts.events;
          created = (let was = b.counts.created in omega arith);
          handed = b.counts.handed;
          listed = b.counts.listed;
          snapshots = (let was = b.counts.snapshots in omega arith);
          plans = (let was = b.counts.plans in omega arith);
        };
      }
