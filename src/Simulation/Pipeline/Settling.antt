-- ===== src/Simulation/Pipeline/Settling.antt =====
-- The invariant at each step of the last two tasks.
use llm_arbitrage_system.Base.{
  ℕ, suc, ◌≤◌, ◌≡◌, ◌∙◌, refl, sym, ap, inl, inr, true, false, none, some, List, [], ◌∷◌, ◌++◌,
  arith,
}
use llm_arbitrage_system.Base.Tests.{Bool-cases}
use llm_arbitrage_system.Base.Lists.{length, length-append}
use llm_arbitrage_system.Domain.Numbers.{Numbers}
use llm_arbitrage_system.Domain.Plans.{StrategyDecision, ApprovedTradePlan, ExecutionResult}
use llm_arbitrage_system.Simulation.Approval.Gate.{RiskEvaluation}
use llm_arbitrage_system.Simulation.Pipeline.{
  Message, item, sentinel, send, Parts, Pipeline, Entry, at_queue, in_executor, in_journal,
}
use llm_arbitrage_system.Simulation.Pipeline.Queues.{
  count_items, count_items-send, count_items-end, IsSound-send, IsSound-end, IsSound-take,
  IsSound-stop,
}
use llm_arbitrage_system.Simulation.Pipeline.Balance.{held, open_for, unsettled, Balanced}

module _ (N : Numbers) (parts : Parts N) (size total : ℕ) where
  open parts use {Gate}

  abbrev State : Type 0
  State = Pipeline N parts

  abbrev Good : State → Type 0
  Good = Balanced N parts size total

  pub approve-take :
      (s : State) (d : StrategyDecision N) (rest : List (Message (StrategyDecision N))) (g : Gate)
      (ev : RiskEvaluation N)
      → Good s
      → s.evaluating ≡ none
      → s.decision_queue.items ≡ item d ∷ rest
      → Good (record s {
        decision_queue = record s.decision_queue { items = rest };
        approver = g;
        evaluating = some (d, ev);
      })
  approve-take s d rest g ev b free q =
      let (undrained, taken) = IsSound-take size s.decision_queue d rest q b.decisions in
      let fewer = ap count_items q in
      let none_held = ap held free in
      record {
        arrivals = b.arrivals;
        decisions = taken;
        approvals = b.approvals;
        source = b.source;
        analyst = b.analyst;
        approver = (
          b.approver.0,
          λ ended. absurd (let bad = sym ended ∙ (b.approver.0 ∙ undrained) in cc),
        );
        executor = b.executor;
        counts = record {
          events = b.counts.events;
          created = (let was = b.counts.created in omega arith);
          handed = b.counts.handed;
          listed = b.counts.listed;
          snapshots = b.counts.snapshots;
          plans = b.counts.plans;
        };
      }

  module _ (s : State) (d : StrategyDecision N) (ev : RiskEvaluation N) (entries : List (Entry N))
      (b : Good s) (holds : s.evaluating ≡ some (d, ev)) where
    pub approve-reject :
        Good
          (record s { evaluating = none; journal = entries; plans_rejected = suc s.plans_rejected })
    approve-reject =
        let one_held = ap held holds in
        record {
          arrivals = b.arrivals;
          decisions = b.decisions;
          approvals = b.approvals;
          source = b.source;
          analyst = b.analyst;
          approver = (b.approver.0, λ ended. refl);
          executor = b.executor;
          counts = record {
            events = b.counts.events;
            created = (let was = b.counts.created in omega arith);
            handed = b.counts.handed;
            listed = b.counts.listed;
            snapshots = b.counts.snapshots;
            plans = b.counts.plans;
          };
        }

    pub approve-accept :
        (a : ApprovedTradePlan N)
        → length s.approved_queue.items ≤ size
        → Good (record s {
          evaluating = none;
          journal = entries;
          plans_approved = suc s.plans_approved;
          approved_plans = s.approved_plans ++ a ∷ [];
          approved_queue = send (item a) s.approved_queue;
        })
    approve-accept a room =
        let open_queue =
          open_for s.approved_queue.is_ended s.evaluating (d, ev) holds b.approver.1 in
        let one_held = ap held holds in
        let one_more = count_items-send s.approved_queue.items a in
        let longer = length-append s.approved_plans (a ∷ []) in
        record {
          arrivals = b.arrivals;
          decisions = b.decisions;
          approvals = IsSound-send size s.approved_queue a open_queue room b.approvals;
          source = b.source;
          analyst = b.analyst;
          approver = (b.approver.0, λ ended. refl);
          executor = b.executor;
          counts = record {
            events = b.counts.events;
            created = (let was = b.counts.created in omega arith);
            handed = (let was = b.counts.handed in omega arith);
            listed = (let was = b.counts.listed in omega arith);
            snapshots = b.counts.snapshots;
            plans = b.counts.plans;
          };
        }

  pub approve-end :
      (s : State) (rest : List (Message (StrategyDecision N)))
      → Good s
      → s.evaluating ≡ none
      → s.decision_queue.items ≡ sentinel ∷ rest
      → length s.approved_queue.items ≤ size
      → Good (record s {
        decision_queue = record s.decision_queue { items = rest; is_drained = true };
        approved_queue = send sentinel s.approved_queue;
      })
  approve-end s rest b free q room =
      let (undrained, stopped) = IsSound-stop size s.decision_queue rest q b.decisions in
      let fewer = ap count_items q in
      let same = count_items-end s.approved_queue.items in
      record {
        arrivals = b.arrivals;
        decisions = stopped;
        approvals = IsSound-end size s.approved_queue (b.approver.0 ∙ undrained) room b.approvals;
        source = b.source;
        analyst = b.analyst;
        approver = (refl, λ ended. free);
        executor = b.executor;
        counts = record {
          events = b.counts.events;
          created = (let was = b.counts.created in omega arith);
          handed = (let was = b.counts.handed in omega arith);
          listed = b.counts.listed;
          snapshots = b.counts.snapshots;
          plans = b.counts.plans;
        };
      }

  pub execute-take :
      (s : State) (a : ApprovedTradePlan N) (rest : List (Message (ApprovedTradePlan N)))
      → Good s
      → s.executing ≡ at_queue
      → s.approved_queue.items ≡ item a ∷ rest
      → Good (record s {
        approved_queue = record s.approved_queue { items = rest };
        executing = in_executor a;
      })
  execute-take s a rest b free q =
      let (undrained, taken) = IsSound-take size s.approved_queue a rest q b.approvals in
      let fewer = ap count_items q in
      let settled = ap unsettled free in
      record {
        arrivals = b.arrivals;
        decisions = b.decisions;
        approvals = taken;
        source = b.source;
        analyst = b.analyst;
        approver = b.approver;
        executor = λ drained. absurd (let bad = sym drained ∙ undrained in cc);
        counts = record {
          events = b.counts.events;
          created = b.counts.created;
          handed = (let was = b.counts.handed in omega arith);
          listed = b.counts.listed;
          snapshots = b.counts.snapshots;
          plans = b.counts.plans;
        };
      }

  not_drained :
      (s : State) → Good s → (s.executing ≡ at_queue → ⊥) → s.approved_queue.is_drained ≡ false
  not_drained s b busy = elim (Bool-cases s.approved_queue.is_drained) [
    | inl drained ↦ absurd (busy (b.executor drained))
    | inr open_queue ↦ open_queue
  ]

  pub execute-return :
      (s : State) (a : ApprovedTradePlan N) (outcome : ExecutionResult N)
      → Good s
      → s.executing ≡ in_executor a
      → Good (record s { results = s.results ++ outcome ∷ []; executing = in_journal a outcome })
  execute-return s a outcome b holds =
      let undrained = not_drained s b (λ free. let bad = sym holds ∙ free in cc) in
      let one = ap unsettled holds in
      let longer = length-append s.results (outcome ∷ []) in
      record {
        arrivals = b.arrivals;
        decisions = b.decisions;
        approvals = b.approvals;
        source = b.source;
        analyst = b.analyst;
        approver = b.approver;
        executor = λ drained. absurd (let bad = sym drained ∙ undrained in cc);
        counts = record {
          events = b.counts.events;
          created = b.counts.created;
          handed = (let was = b.counts.handed in omega arith);
          listed = b.counts.listed;
          snapshots = b.counts.snapshots;
          plans = b.counts.plans;
        };
      }

  pub execute-record :
      (s : State) (a : ApprovedTradePlan N) (outcome : ExecutionResult N) (g : Gate)
      (entries : List (Entry N))
      → Good s
      → s.executing ≡ in_journal a outcome
      → Good (record s { executing = at_queue; journal = entries; approver = g })
  execute-record s a outcome g entries b holds =
      let none_left = ap unsettled holds in
      record {
        arrivals = b.arrivals;
        decisions = b.decisions;
        approvals = b.approvals;
        source = b.source;
        analyst = b.analyst;
        approver = b.approver;
        executor = λ drained. refl;
        counts = record {
          events = b.counts.events;
          created = b.counts.created;
          handed = (let was = b.counts.handed in omega arith);
          listed = b.counts.listed;
          snapshots = b.counts.snapshots;
          plans = b.counts.plans;
        };
      }

  pub execute-end :
      (s : State) (rest : List (Message (ApprovedTradePlan N)))
      → Good s
      → s.executing ≡ at_queue
      → s.approved_queue.items ≡ sentinel ∷ rest
      → Good (record s {
        approved_queue = record s.approved_queue { items = rest; is_drained = true };
      })
  execute-end s rest b free q =
      let (undrained, stopped) = IsSound-stop size s.approved_queue rest q b.approvals in
      let fewer = ap count_items q in
      record {
        arrivals = b.arrivals;
        decisions = b.decisions;
        approvals = stopped;
        source = b.source;
        analyst = b.analyst;
        approver = b.approver;
        executor = λ drained. free;
        counts = record {
          events = b.counts.events;
          created = b.counts.created;
          handed = (let was = b.counts.handed in omega arith);
          listed = b.counts.listed;
          snapshots = b.counts.snapshots;
          plans = b.counts.plans;
        };
      }
