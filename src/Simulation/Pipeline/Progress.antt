-- ===== src/Simulation/Pipeline/Progress.antt =====
-- The four tasks never all wait for each other.
use llm_arbitrage_system.Base.{
  ℕ, ◌≡◌, refl, ◌∙◌, sym, ◌⊎◌, inl, inr, true, false, Option, none, some, List, [], ◌∷◌, arith,
}
use llm_arbitrage_system.Base.Tests.{Option-cases}
use llm_arbitrage_system.Base.Lists.{length}
use llm_arbitrage_system.Domain.Numbers.{Numbers}
use llm_arbitrage_system.Domain.Contracts.{MarketEvent}
use llm_arbitrage_system.Domain.Plans.{StrategyDecision, ApprovedTradePlan}
use llm_arbitrage_system.Simulation.Pipeline.{
  Message, item, sentinel, Channel, has_room, Task, produces, analyzes, approves, executes, Parts,
  Pipeline, start, run, produce, analyze, approve_next, execute_next, step, is_finished,
}
use llm_arbitrage_system.Simulation.Pipeline.Queues.{IsOrdered-empty}
use llm_arbitrage_system.Simulation.Pipeline.Tasks.{
  Good, Message-cases, List-cases, Execution-cases,
}
use llm_arbitrage_system.Simulation.Pipeline.Report.{run-Good, start-Good}

module _ (N : Numbers) (parts : Parts N) (size : ℕ) where
  open parts use {Analytics, Gate}

  abbrev State : Type 0
  State = Pipeline N parts

  abbrev IsSome : Option State → Type 0
  IsSome next = (s : State) × (next ≡ some s)

  empty_has_room : {A : Type 0} (c : Channel A) → c.items ≡ [] → has_room size c ≡ true
  empty_has_room c e = rw e (ground arith)

  produce-moves : (s : State) → s.data_queue.is_ended ≡ false → IsSome (produce N parts s)
  unfolding produce
  produce-moves s open_queue = elim (Option-cases s.producing) [
    | inr (e, holds) ↦ rw (holds, produce) (_, refl)
    | inl free ↦ elim (List-cases s.remaining) [
      | inl nothing ↦ rw (free, nothing, open_queue, produce) (_, refl)
      | inr (e, es, more) ↦ rw (free, more, produce) (_, refl)
    ]
  ]

  -- Some task can make a step.
  abbrev pub CanMove : State → Type 0
  CanMove s = (task : Task) × IsSome (step N parts size task s)

  by_producer :
      (s : State)
      → s.failure ≡ none
      → s.data_queue.items ≡ []
      → s.data_queue.is_ended ≡ false
      → CanMove s
  unfolding step
  by_producer s fine empty open_queue =
      (produces, rw (fine, empty_has_room s.data_queue empty, step) (produce-moves s open_queue))

  analyze-moves :
      (s : State)
      → ((rest : List (Message (MarketEvent N))) × (s.data_queue.items ≡ sentinel ∷ rest))
        ⊎ ((a : MarketEvent N) × (rest : List (Message (MarketEvent N))) × (s.data_queue.items
              ≡ item a ∷ rest))
      → IsSome (analyze N parts s)
  unfolding analyze
  analyze-moves s some_here = elim (Option-cases s.deciding) [
    | inr (_, holds) ↦ rw (holds, analyze) (_, refl)
    | inl free ↦ elim some_here [
      | inl (rest, e) ↦ rw (free, e, analyze) (_, refl)
      | inr (a, rest, e) ↦ rw (free, e, analyze) (_, refl)
    ]
  ]

  approve_next-moves :
      (s : State)
      → ((rest : List (Message (StrategyDecision N))) × (s.decision_queue.items ≡ sentinel ∷ rest))
        ⊎ ((a : StrategyDecision N) × (rest : List (Message (StrategyDecision N)))
            × (s.decision_queue.items ≡ item a ∷ rest))
      → IsSome (approve_next N parts s)
  unfolding approve_next
  approve_next-moves s some_here = elim (Option-cases s.evaluating) [
    | inr (_, holds) ↦ rw (holds, approve_next) (_, refl)
    | inl free ↦ elim some_here [
      | inl (rest, e) ↦ rw (free, e, approve_next) (_, refl)
      | inr (a, rest, e) ↦ rw (free, e, approve_next) (_, refl)
    ]
  ]

  execute_next-moves :
      (s : State)
      → ((rest : List (Message (ApprovedTradePlan N))) × (s.approved_queue.items ≡ sentinel ∷ rest))
        ⊎ ((a : ApprovedTradePlan N) × (rest : List (Message (ApprovedTradePlan N)))
            × (s.approved_queue.items ≡ item a ∷ rest))
      → IsSome (execute_next N parts s)
  unfolding execute_next
  execute_next-moves s some_here = elim (Execution-cases s.executing) [
    | inr (inl (a, holds)) ↦ rw (holds, execute_next) (_, refl)
    | inr (inr (a, outcome, holds)) ↦ rw (holds, execute_next) (_, refl)
    | inl free ↦ elim some_here [
      | inl (rest, e) ↦ rw (free, e, execute_next) (_, refl)
      | inr (a, rest, e) ↦ rw (free, e, execute_next) (_, refl)
    ]
  ]

  by_analyst :
      (total : ℕ) (s : State)
      → Good N parts size total s
      → s.failure ≡ none
      → s.decision_queue.items ≡ []
      → s.data_queue.is_drained ≡ false
      → CanMove s
  unfolding step
  by_analyst total s b fine empty undrained = elim (Message-cases s.data_queue.items) [
    | inl none_here ↦ by_producer s fine none_here (
        IsOrdered-empty s.data_queue.is_ended s.data_queue.is_drained s.data_queue.items undrained
          none_here b.arrivals.ordered)
    | inr some_here ↦ (
      analyzes,
      rw (fine, empty_has_room s.decision_queue empty, step) (analyze-moves s some_here),
    )
  ]

  by_approver :
      (total : ℕ) (s : State)
      → Good N parts size total s
      → s.failure ≡ none
      → s.approved_queue.items ≡ []
      → s.decision_queue.is_drained ≡ false
      → CanMove s
  unfolding step
  by_approver total s b fine empty undrained = elim (Message-cases s.decision_queue.items) [
    | inl none_here ↦ by_analyst total s b fine none_here (
        sym b.analyst.0
        ∙ IsOrdered-empty s.decision_queue.is_ended s.decision_queue.is_drained
            s.decision_queue.items undrained none_here b.decisions.ordered)
    | inr some_here ↦ (
      approves,
      rw (fine, empty_has_room s.approved_queue empty, step) (approve_next-moves s some_here),
    )
  ]

  -- The tasks never all wait for each other: in whatever order they have run, as long as none has raised
  -- and the last one has not returned, one of them can make a step, for every size of the queues, where
  -- what the journal and the executor are asked for arrives.
  pub run-CanMove :
      (events : List (MarketEvent N)) (a : Analytics) (g : Gate) (tasks : List Task)
      → let s = run N parts size tasks (start N parts events a g) in
        s.failure ≡ none → is_finished N parts s ≡ false → CanMove s
  unfolding step
  run-CanMove events a g tasks fine undrained =
      let s = run N parts size tasks (start N parts events a g) in
      let b =
        run-Good N parts size (length events) tasks _ (start-Good N parts size events a g) fine in
      elim (Message-cases s.approved_queue.items) [
        | inl none_here ↦ by_approver (length events) s b fine none_here (
            sym b.approver.0
            ∙ IsOrdered-empty s.approved_queue.is_ended s.approved_queue.is_drained
                s.approved_queue.items undrained none_here b.approvals.ordered)
        | inr some_here ↦ (executes, rw (fine, step) (execute_next-moves s some_here))
      ]
