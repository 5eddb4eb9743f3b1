-- ===== src/Simulation/Pipeline/Report.antt =====
-- The invariant of every run, and what it makes of the report of a run that ends.
use llm_arbitrage_system.Base.{
  ℕ, suc, ◌+◌, ◌≤◌, ◌≡◌, refl, sym, ap, subst, ◌∙◌, inl, inr, ◌||◌, true, Option, none, some, List,
  [], ◌∷◌, arith,
}
use llm_arbitrage_system.Base.Tests.{Option-cases}
use llm_arbitrage_system.Base.Lists.{length}
use llm_arbitrage_system.Domain.Numbers.{Numbers}
use llm_arbitrage_system.Domain.Contracts.{MarketEvent}
use llm_arbitrage_system.Domain.Plans.{ExecutionResult}
use llm_arbitrage_system.Simulation.Pipeline.{Task, Parts, Pipeline, start, step}
use llm_arbitrage_system.Simulation.Pipeline.Queues.{count_items, IsOrdered-drained}
use llm_arbitrage_system.Domain.Contracts.{ExecutionStatus, is_status}
use llm_arbitrage_system.Base.Lists.{count_if}
use llm_arbitrage_system.Simulation.Pipeline.{report, is_finished, ReplayReport}
use llm_arbitrage_system.Simulation.Pipeline.{run, or_wait}
use llm_arbitrage_system.Simulation.Pipeline.Queues.{IsOrdered-drained}
use llm_arbitrage_system.Simulation.Pipeline.Balance.{held, unsettled}
use llm_arbitrage_system.Simulation.Pipeline.Tasks.{Good, step-Good}

module _ (N : Numbers) (parts : Parts N) (size : ℕ) where
  open parts use {Analytics, Gate}

  abbrev State : Type 0
  State = Pipeline N parts

  pub start-Good :
      (events : List (MarketEvent N)) (a : Analytics) (g : Gate)
      → Good N parts size (length events) (start N parts events a g)
  start-Good events a g = record {
    arrivals = record { ordered = tt; room = omega arith };
    decisions = record { ordered = tt; room = omega arith };
    approvals = record { ordered = tt; room = omega arith };
    source = λ ended. absurd (cc);
    analyst = (refl, λ ended. refl);
    approver = (refl, λ ended. refl);
    executor = λ drained. refl;
    counts = record {
      events = omega arith;
      created = omega arith;
      handed = omega arith;
      listed = refl;
      snapshots = omega arith;
      plans = omega arith;
    };
  }

  step-stops :
      (error : parts.Error) (task : Task) (s : State)
      → s.failure ≡ some error
      → step N parts size task s ≡ none
  unfolding step
  step-stops error task s h = rw (h, step) refl

  -- an exception is never taken back
  failure-stays :
      (error : parts.Error) (tasks : List Task) (s : State)
      → s.failure ≡ some error
      → (run N parts size tasks s).failure ≡ some error
  failure-stays error [] s h = h
  failure-stays error (task ∷ tasks) s h =
      subst (λ next. (run N parts size tasks (or_wait N parts next s)).failure ≡ some error)
        (sym (step-stops error task s h)) (failure-stays error tasks s h)

  pub run-Good :
      (total : ℕ) (tasks : List Task) (s : State)
      → Good N parts size total s
      → (run N parts size tasks s).failure ≡ none
      → Good N parts size total (run N parts size tasks s)
  run-Good total [] s b clean = b
  run-Good total (task ∷ tasks) s b clean =
      after_step (run-Good total tasks) (step N parts size task s) refl clean
    where
      after_step :
          ((t : State)
            → Good N parts size total t
            → (run N parts size tasks t).failure ≡ none
            → Good N parts size total (run N parts size tasks t))
          → (next : Option State) → step N parts size task s ≡ next
          → (run N parts size tasks (or_wait N parts next s)).failure ≡ none
          → Good N parts size total (run N parts size tasks (or_wait N parts next s))
      after_step later none waits clean = later s b clean
      after_step later (some s') moves clean = elim (Option-cases s'.failure) [
        | inl fine ↦ later s' (step-Good N parts size total task s s' b moves fine) clean
        | inr (error, broken) ↦ absurd (let stays = failure-stays error tasks s' broken in cc)
      ]

  -- What has become of the events, plans and approved plans, and how full the queues are.
  pub record IsConserved (events : List (MarketEvent N)) (s : State) : Type 0 where
    pub received : s.events_received + length s.remaining ≡ length events
    pub snapshots :
        s.feature_snapshots + (held s.producing + count_items s.data_queue.items)
        ≤ s.events_received
    pub created : s.plans_created ≤ s.feature_snapshots
    pub decided :
        s.plans_created
        ≡ s.plans_approved
          + s.plans_rejected
          + (held s.deciding + held s.evaluating + count_items s.decision_queue.items)
    pub executed :
        s.plans_approved
        ≡ length s.results + (unsettled s.executing + count_items s.approved_queue.items)
    pub listed : length s.approved_plans ≡ s.plans_approved
    pub data_room : length s.data_queue.items ≤ suc size
    pub decision_room : length s.decision_queue.items ≤ suc size
    pub approved_room : length s.approved_queue.items ≤ suc size

  -- In whatever order the event loop picks the four tasks, each from one await to the next, and as long as
  -- none has raised: no event, plan or approved plan is lost or counted twice. Each event is received or
  -- still to come, and the feature snapshots, the events that the producer holds and those in the data
  -- queue are together no more than the events received; each plan created is approved, rejected, in the
  -- decision queue, or held by the analyst or the approver while the journal records it; each approved
  -- plan has a result, is in the approved queue, or is the one that the executor works on; and no queue
  -- holds more than its size, the item that its producer waits to put apart.
  pub run-IsConserved :
      (events : List (MarketEvent N)) (a : Analytics) (g : Gate) (tasks : List Task)
      → (run N parts size tasks (start N parts events a g)).failure ≡ none
      → IsConserved events (run N parts size tasks (start N parts events a g))
  run-IsConserved events a g tasks clean =
      let b = run-Good (length events) tasks _ (start-Good events a g) clean in
      record {
        received = b.counts.events;
        snapshots = b.counts.snapshots;
        created = b.counts.plans;
        decided = b.counts.created;
        executed = b.counts.handed;
        listed = b.counts.listed;
        data_room = b.arrivals.room;
        decision_room = b.decisions.room;
        approved_room = b.approvals.room;
      }

  statuses_bound :
      (rs : List (ExecutionResult N))
      → count_if (λ r. is_status r.status ExecutionStatus.filled) rs
          + count_if (λ r. is_status r.status ExecutionStatus.compensated) rs
          + count_if
              (λ r.
                is_status r.status ExecutionStatus.failed
                || is_status r.status ExecutionStatus.partially_filled)
              rs
        ≤ length rs
  statuses_bound [] = omega arith
  statuses_bound (r ∷ rs) = ground (arith, statuses_bound rs)

  -- The report of a run that ended, from the events it was given.
  pub record IsComplete (count : ℕ) (r : ReplayReport N parts) : Type 0 where
    pub all_received : r.events_received ≡ count
    pub all_decided : r.plans_created ≡ r.plans_approved + r.plans_rejected
    pub outcomes : r.filled + r.compensated + r.failed ≤ r.plans_approved

  -- When the last task has returned and none has raised, every event was received, every plan was either
  -- approved or rejected, every approved plan has exactly one result, and the report counts no more
  -- filled, compensated and failed results than approved plans.
  pub finished-IsComplete :
      (events : List (MarketEvent N)) (a : Analytics) (g : Gate) (tasks : List Task)
      → let s = run N parts size tasks (start N parts events a g) in
        s.failure ≡ none
        → is_finished N parts s ≡ true
        → IsComplete (length events) (report N parts s)
          × (length s.results ≡ length s.approved_plans)
  unfolding report
  finished-IsComplete events a g tasks clean finished =
      let s = run N parts size tasks (start N parts events a g) in
      let b = run-Good (length events) tasks _ (start-Good events a g) clean in
      let third =
        IsOrdered-drained s.approved_queue.is_ended s.approved_queue.is_drained
          s.approved_queue.items finished b.approvals.ordered in
      let second =
        IsOrdered-drained s.decision_queue.is_ended s.decision_queue.is_drained
          s.decision_queue.items (sym b.approver.0 ∙ third.0) b.decisions.ordered in
      let first =
        IsOrdered-drained s.data_queue.is_ended s.data_queue.is_drained s.data_queue.items
          (sym b.analyst.0 ∙ second.0) b.arrivals.ordered in
      let none_left = ap length (b.source first.0).0 in
      let no_decisions = ap count_items second.1 in
      let no_approved = ap count_items third.1 in
      let not_deciding = ap held (b.analyst.1 second.0) in
      let not_evaluating = ap held (b.approver.1 third.0) in
      let not_executing = ap unsettled (b.executor finished) in
      let received = b.counts.events in
      let created = b.counts.created in
      let handed = b.counts.handed in
      let listed = b.counts.listed in
      let bound = statuses_bound s.results in
      (
        record {
          all_received = omega (arith, received, none_left);
          all_decided = omega (arith, created, no_decisions, not_deciding, not_evaluating);
          outcomes = omega (arith, handed, no_approved, not_executing, bound);
        },
        omega (arith, handed, no_approved, not_executing, listed),
      )
