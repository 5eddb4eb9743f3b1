-- ===== src/Simulation/Pipeline/Tasks.antt =====
-- The invariant at a step of any task.
use llm_arbitrage_system.Base.{
  ℕ, ◌≤◌, ◌≡◌, refl, ap, subst, ◌∙◌, ◌⊎◌, inl, inr, Bool, true, false, Option, none, some, List, [],
  ◌∷◌, arith,
}
use llm_arbitrage_system.Base.Tests.{if◌then◌else◌, leb, Bool-cases, Option-cases}
use llm_arbitrage_system.Base.Lists.{length}
use llm_arbitrage_system.Base.Result.{Result-cases}
use llm_arbitrage_system.Domain.Numbers.{Numbers}
use llm_arbitrage_system.Domain.Contracts.{MarketEvent, FeatureSnapshot}
use llm_arbitrage_system.Domain.Plans.{StrategyDecision, ApprovedTradePlan, ExecutionResult}
use llm_arbitrage_system.Simulation.Approval.Gate.{RiskEvaluation}
use llm_arbitrage_system.Simulation.Pipeline.{
  Message, item, sentinel, has_room, Task, produces, analyzes, approves, executes, Parts, Pipeline,
  produce, analyze_event, analyze, analyzed, evaluated, approve_decision, approve_next,
  execute_plan, settle_result, execute_next, step, Entry, Execution, at_queue, in_executor,
  in_journal,
}
use llm_arbitrage_system.Simulation.Pipeline.Balance.{Balanced}
use llm_arbitrage_system.Simulation.Pipeline.Steps.{
  produce-put, produce-end, produce-take, analyze-put, analyze-end, analyze-no_features,
  analyze-no_plan, analyze-plan,
}
use llm_arbitrage_system.Simulation.Pipeline.Settling.{
  approve-take, approve-reject, approve-accept, approve-end, execute-take, execute-return,
  execute-record, execute-end,
}

pub Message-cases :
    {A : Type 0} (ms : List (Message A))
    → (ms ≡ [])
      ⊎ ((rest : List (Message A)) × (ms ≡ sentinel ∷ rest))
      ⊎ ((a : A) × (rest : List (Message A)) × (ms ≡ item a ∷ rest))
Message-cases [] = inl refl
Message-cases (sentinel ∷ rest) = inr (inl (rest, refl))
Message-cases (item a ∷ rest) = inr (inr (a, rest, refl))

pub List-cases :
    {A : Type 0} (xs : List A) → (xs ≡ []) ⊎ ((x : A) × (rest : List A) × (xs ≡ x ∷ rest))
List-cases [] = inl refl
List-cases (x ∷ rest) = inr (x, rest, refl)

pub Execution-cases :
    {N : Numbers} (x : Execution N)
    → (x ≡ at_queue)
      ⊎ ((a : ApprovedTradePlan N) × (x ≡ in_executor a))
      ⊎ ((a : ApprovedTradePlan N) × (r : ExecutionResult N) × (x ≡ in_journal a r))
Execution-cases at_queue = inl refl
Execution-cases (in_executor a) = inr (inl (a, refl))
Execution-cases (in_journal a r) = inr (inr (a, r, refl))

pub same_some : {A : Type 0} (x y : A) → some x ≡ some y → x ≡ y
same_some x y h = cc

fits : (n size : ℕ) → leb n size ≡ true → n ≤ size
fits n size h = ground arith

with_room :
    {A : Type 0} (room : Bool) (next : Option A) (a : A)
    → (if room then next else none) ≡ some a
    → (room ≡ true) × (next ≡ some a)
with_room true next a h = (refl, h)
with_room false next a h = absurd (cc)

module _ (N : Numbers) (parts : Parts N) (size total : ℕ) where
  open parts use {Analytics, Gate}

  abbrev State : Type 0
  State = Pipeline N parts

  abbrev pub Good : State → Type 0
  Good = Balanced N parts size total

  analyzed-Good :
      (e : MarketEvent N) (rest : List (Message (MarketEvent N))) (f : Option (FeatureSnapshot N))
      (a : Analytics) (s : State)
      → Good s
      → s.deciding ≡ none
      → s.data_queue.items ≡ item e ∷ rest
      → let t = record s { data_queue = record s.data_queue { items = rest }; analytics = a } in
        (analyzed N parts e f t).failure ≡ none → Good (analyzed N parts e f t)
  analyzed-Good e rest none a s b free q clean =
      analyze-no_features N parts size total s e rest a b q
  analyzed-Good e rest (some f) a s b free q clean = elim (Result-cases (parts.plan e f)) [
    | inr (error, r) ↦ absurd (let bad = rw (r, analyzed) at clean in cc)
    | inl (none, r) ↦ rw (r, analyzed) (analyze-no_plan N parts size total s e rest a b q)
    | inl (some made, r) ↦ rw (r, analyzed) (analyze-plan N parts size total s e rest a _ b free q)
  ]

  analyze_event-Good :
      (e : MarketEvent N) (rest : List (Message (MarketEvent N))) (s : State)
      → Good s
      → s.deciding ≡ none
      → s.data_queue.items ≡ item e ∷ rest
      → let t = record s { data_queue = record s.data_queue { items = rest } } in
        (analyze_event N parts e t).failure ≡ none → Good (analyze_event N parts e t)
  unfolding analyze_event
  analyze_event-Good e rest s b free q clean = elim (Result-cases (parts.process e s.analytics)) [
    | inr (error, r) ↦ absurd (let bad = rw (r, analyze_event) at clean in cc)
    | inl ((f, a), r) ↦
        let clean' = rw (r, analyze_event) at clean in
        rw (r, analyze_event) (analyzed-Good e rest f a s b free q clean')
  ]

  evaluated-Good :
      (approved : Option (ApprovedTradePlan N)) (d : StrategyDecision N) (ev : RiskEvaluation N)
      (entries : List (Entry N)) (s : State)
      → Good s
      → s.evaluating ≡ some (d, ev)
      → length s.approved_queue.items ≤ size
      → Good (evaluated N parts approved (record s { evaluating = none; journal = entries }))
  evaluated-Good none d ev entries s b holds room =
      approve-reject N parts size total s d ev entries b holds
  evaluated-Good (some approved) d ev entries s b holds room =
      approve-accept N parts size total s d ev entries b holds approved room

  approve_decision-Good :
      (d : StrategyDecision N) (rest : List (Message (StrategyDecision N))) (s : State)
      → Good s
      → s.evaluating ≡ none
      → s.decision_queue.items ≡ item d ∷ rest
      → let t = record s { decision_queue = record s.decision_queue { items = rest } } in
        (approve_decision N parts d t).failure ≡ none → Good (approve_decision N parts d t)
  unfolding approve_decision
  approve_decision-Good d rest s b free q clean = elim (Result-cases (parts.approve d s.approver)) [
    | inr (error, r) ↦ absurd (let bad = rw (r, approve_decision) at clean in cc)
    | inl ((ev, g), r) ↦
        rw (r, approve_decision) (approve-take N parts size total s d rest g ev b free q)
  ]

  execute_plan-Good :
      (a : ApprovedTradePlan N) (s : State)
      → Good s
      → s.executing ≡ in_executor a
      → (execute_plan N parts a s).failure ≡ none
      → Good (execute_plan N parts a s)
  unfolding execute_plan
  execute_plan-Good a s b holds clean = elim (Result-cases (parts.execute a)) [
    | inr (error, q) ↦ absurd (let bad = rw (q, execute_plan) at clean in cc)
    | inl (outcome, q) ↦
        rw (q, execute_plan) (execute-return N parts size total s a outcome b holds)
  ]

  settle_result-Good :
      (a : ApprovedTradePlan N) (outcome : ExecutionResult N) (s : State)
      → Good s
      → s.executing ≡ in_journal a outcome
      → (settle_result N parts a outcome s).failure ≡ none
      → Good (settle_result N parts a outcome s)
  unfolding settle_result
  settle_result-Good a outcome s b holds clean =
      elim (Result-cases (parts.record_result a outcome s.approver)) [
        | inr (error, q) ↦ absurd (let bad = rw (q, settle_result) at clean in cc)
        | inl (g, q) ↦
            rw (q, settle_result) (execute-record N parts size total s a outcome g _ b holds)
      ]

  produce-Good :
      (s s' : State)
      → Good s
      → length s.data_queue.items ≤ size
      → produce N parts s ≡ some s'
      → Good s'
  unfolding produce
  produce-Good s s' b room h = elim (Option-cases s.producing) [
    | inr (e, holds) ↦
        subst Good (same_some _ s' (rw (holds, produce) at h))
          (produce-put N parts size total s e _ b holds room)
    | inl free ↦ elim (List-cases s.remaining) [
      | inl nothing ↦ elim (Bool-cases s.data_queue.is_ended) [
        | inl ended ↦ absurd (let bad = rw (free, nothing, ended, produce) at h in cc)
        | inr open_queue ↦
            subst Good (same_some _ s' (rw (free, nothing, open_queue, produce) at h))
              (produce-end N parts size total s b free nothing open_queue room)
      ]
      | inr (e, es, more) ↦
          subst Good (same_some _ s' (rw (free, more, produce) at h))
            (produce-take N parts size total s e es b free more)
    ]
  ]

  analyze-Good :
      (s s' : State)
      → Good s
      → length s.decision_queue.items ≤ size
      → analyze N parts s ≡ some s'
      → s'.failure ≡ none
      → Good s'
  unfolding analyze
  analyze-Good s s' b room h clean = elim (Option-cases s.deciding) [
    | inr (d, holds) ↦
        subst Good (same_some _ s' (rw (holds, analyze) at h))
          (analyze-put N parts size total s d _ b holds room)
    | inl free ↦ elim (Message-cases s.data_queue.items) [
      | inl nothing ↦ absurd (let bad = rw (free, nothing, analyze) at h in cc)
      | inr (inl (rest, q)) ↦
          subst Good (same_some _ s' (rw (free, q, analyze) at h))
            (analyze-end N parts size total s rest b free q room)
      | inr (inr (e, rest, q)) ↦
          let h' = same_some _ s' (rw (free, q, analyze) at h) in
          subst Good h' (analyze_event-Good e rest s b free q (ap (λ t. t.failure) h' ∙ clean))
    ]
  ]

  approve_next-Good :
      (s s' : State)
      → Good s
      → length s.approved_queue.items ≤ size
      → approve_next N parts s ≡ some s'
      → s'.failure ≡ none
      → Good s'
  unfolding approve_next
  approve_next-Good s s' b room h clean = elim (Option-cases s.evaluating) [
    | inr ((d, ev), holds) ↦
        subst Good (same_some _ s' (rw (holds, approve_next) at h))
          (evaluated-Good ev.approved d ev _ s b holds room)
    | inl free ↦ elim (Message-cases s.decision_queue.items) [
      | inl nothing ↦ absurd (let bad = rw (free, nothing, approve_next) at h in cc)
      | inr (inl (rest, q)) ↦
          subst Good (same_some _ s' (rw (free, q, approve_next) at h))
            (approve-end N parts size total s rest b free q room)
      | inr (inr (d, rest, q)) ↦
          let h' = same_some _ s' (rw (free, q, approve_next) at h) in
          subst Good h' (approve_decision-Good d rest s b free q (ap (λ t. t.failure) h' ∙ clean))
    ]
  ]

  execute_next-Good :
      (s s' : State) → Good s → execute_next N parts s ≡ some s' → s'.failure ≡ none → Good s'
  unfolding execute_next
  execute_next-Good s s' b h clean = elim (Execution-cases s.executing) [
    | inr (inl (a, holds)) ↦
        let h' = same_some _ s' (rw (holds, execute_next) at h) in
        subst Good h' (execute_plan-Good a s b holds (ap (λ t. t.failure) h' ∙ clean))
    | inr (inr (a, outcome, holds)) ↦
        let h' = same_some _ s' (rw (holds, execute_next) at h) in
        subst Good h' (settle_result-Good a outcome s b holds (ap (λ t. t.failure) h' ∙ clean))
    | inl free ↦ elim (Message-cases s.approved_queue.items) [
      | inl nothing ↦ absurd (let bad = rw (free, nothing, execute_next) at h in cc)
      | inr (inl (rest, q)) ↦
          subst Good (same_some _ s' (rw (free, q, execute_next) at h))
            (execute-end N parts size total s rest b free q)
      | inr (inr (a, rest, q)) ↦
          subst Good (same_some _ s' (rw (free, q, execute_next) at h))
            (execute-take N parts size total s a rest b free q)
    ]
  ]

  pub step-Good :
      (task : Task) (s s' : State)
      → Good s
      → step N parts size task s ≡ some s'
      → s'.failure ≡ none
      → Good s'
  unfolding step
  step-Good task s s' b h clean = elim (Option-cases s.failure) [
    | inr (error, q) ↦ absurd (let bad = rw (q, step) at h in cc)
    | inl fine ↦ by_task task (rw (fine, step) at h)
  ]
    where
      by_task :
          (task : Task)
          → (elim task [
            | produces ↦ if has_room size s.data_queue then produce N parts s else none
            | analyzes ↦ if has_room size s.decision_queue then analyze N parts s else none
            | approves ↦ if has_room size s.approved_queue then approve_next N parts s else none
            | executes ↦ execute_next N parts s
          ])
            ≡ some s'
          → Good s'
      by_task produces h =
          let (room, h') = with_room _ _ s' h in
          produce-Good s s' b (fits (length s.data_queue.items) size room) h'
      by_task analyzes h =
          let (room, h') = with_room _ _ s' h in
          analyze-Good s s' b (fits (length s.decision_queue.items) size room) h' clean
      by_task approves h =
          let (room, h') = with_room _ _ s' h in
          approve_next-Good s s' b (fits (length s.approved_queue.items) size room) h' clean
      by_task executes h = execute_next-Good s s' b h clean
