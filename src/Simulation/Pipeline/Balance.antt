-- ===== src/Simulation/Pipeline/Balance.antt =====
-- What holds between the counters, the queues and the hands of the four tasks, whichever task made its
-- steps.
use llm_arbitrage_system.Base.{
  ℕ, ◌+◌, ◌≤◌, ◌≡◌, ◌∙◌, sym, inl, inr, Bool, true, false, Option, none, some, [],
}
use llm_arbitrage_system.Base.Tests.{Bool-cases}
use llm_arbitrage_system.Base.Lists.{length}
use llm_arbitrage_system.Domain.Numbers.{Numbers}
use llm_arbitrage_system.Simulation.Pipeline.{
  Channel, Execution, at_queue, in_executor, in_journal, Parts, Pipeline,
}
use llm_arbitrage_system.Simulation.Pipeline.Queues.{count_items, IsSound}

-- how many items a hand holds
abbrev pub held : {A : Type 0} → Option A → ℕ
held none = 0
held (some a) = 1

-- A task hands the end of its queue on when it takes it, and holds nothing from then on.
abbrev pub Follows : {A B C : Type 0} → Channel A → Channel B → Option C → Type 0
Follows from to hand = (to.is_ended ≡ from.is_drained) × (to.is_ended ≡ true → hand ≡ none)

pub open_for :
    {C : Type 0} (ended : Bool) (hand : Option C) (c : C)
    → hand ≡ some c
    → (ended ≡ true → hand ≡ none)
    → ended ≡ false
open_for ended hand c holds free = elim (Bool-cases ended) [
  | inl e ↦ absurd (let bad = sym holds ∙ free e in cc)
  | inr e ↦ e
]

-- how many plans `_execute` holds that have no result yet
abbrev pub unsettled : {N : Numbers} → Execution N → ℕ
unsettled at_queue = 0
unsettled (in_executor approved) = 1
unsettled (in_journal approved outcome) = 0

module _ (N : Numbers) (parts : Parts N) (size total : ℕ) where
  abbrev State : Type 0
  State = Pipeline N parts

  -- Nothing is lost or counted twice.
  pub record Counted (s : State) : Type 0 where
    pub events : s.events_received + length s.remaining ≡ total
    pub created :
        s.plans_created
        ≡ s.plans_approved
          + s.plans_rejected
          + (held s.deciding + held s.evaluating + count_items s.decision_queue.items)
    pub handed :
        s.plans_approved
        ≡ length s.results + (unsettled s.executing + count_items s.approved_queue.items)
    pub listed : length s.approved_plans ≡ s.plans_approved
    pub snapshots :
        s.feature_snapshots + (held s.producing + count_items s.data_queue.items)
        ≤ s.events_received
    pub plans : s.plans_created ≤ s.feature_snapshots

  -- The invariant of a run of `total` events.
  pub record Balanced (s : State) : Type 0 where
    pub arrivals : IsSound size s.data_queue
    pub decisions : IsSound size s.decision_queue
    pub approvals : IsSound size s.approved_queue
    pub source : s.data_queue.is_ended ≡ true → (s.remaining ≡ []) × (s.producing ≡ none)
    pub analyst : Follows s.data_queue s.decision_queue s.deciding
    pub approver : Follows s.decision_queue s.approved_queue s.evaluating
    pub executor : s.approved_queue.is_drained ≡ true → s.executing ≡ at_queue
    pub counts : Counted s
