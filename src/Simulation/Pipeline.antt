-- ===== src/Simulation/Pipeline.antt =====
-- simulation/pipeline.py and simulation/protocols.py: the four tasks of `PaperReplayPipeline` over
-- their bounded queues. A step of a task reaches from one `await` to the next, so a task may hold what
-- it has taken while the others go on: an event or a decision that the journal records, an evaluated
-- decision, a plan that the executor works on, a result that the journal records. The event loop may
-- order the steps of different tasks in any way. A queue and the item that its `put` still waits to
-- place are one list, of at most one item more than the queue's size.
use llm_arbitrage_system.Base.{
  ℕ, suc, ◌+◌, Bool, true, false, ◌||◌, Option, none, some, List, [], ◌∷◌, ◌++◌, map,
}
use llm_arbitrage_system.Base.Tests.{if◌then◌else◌, leb}
use llm_arbitrage_system.Base.Lists.{length, count_if}
use llm_arbitrage_system.Base.Result.{Result, ok, err}
use llm_arbitrage_system.Domain.Numbers.{Numbers}
use llm_arbitrage_system.Domain.Contracts.{ExecutionStatus, is_status, MarketEvent, FeatureSnapshot}
use llm_arbitrage_system.Domain.Plans.{
  TradePlan, StrategyDecision, ApprovedTradePlan, ExecutionResult,
}
use llm_arbitrage_system.Simulation.Approval.Gate.{RiskEvaluation}
pub mod Queues
pub mod Balance
pub mod Steps
pub mod Settling
pub mod Tasks
pub mod Report
pub mod Progress
mod Tests

pub data Message (A : Type 0) : Type 0 where
  item : A → Message A
  sentinel : Message A

-- A queue with the item that waits for a place in it, in order; whether the sentinel has been handed
-- to it, and whether its consumer has taken the sentinel and returned.
pub record Channel (A : Type 0) : Type 0 where
  pub items : List (Message A)
  pub is_ended : Bool
  pub is_drained : Bool

abbrev pub send : {A : Type 0} → Message A → Channel A → Channel A
send (item a) c = record c { items = c.items ++ item a ∷ [] }
send sentinel c = record c { items = c.items ++ sentinel ∷ []; is_ended = true }

-- `None` is not handed on.
abbrev pub send_some : {A : Type 0} → Option A → Channel A → Channel A
send_some none c = c
send_some (some a) c = send (item a) c

-- A producer whose `put` has returned can go on.
abbrev pub has_room : {A : Type 0} → ℕ → Channel A → Bool
has_room size c = leb (length c.items) size

abbrev pub new_channel : {A : Type 0} → Channel A
new_channel = record { items = []; is_ended = false; is_drained = false }

pub data Task : Type 0 where
  produces analyzes approves executes : Task

module _ (N : Numbers) where
  -- The parts that the pipeline is given, which may raise: AnalyticsEngine and the protocols Planner,
  -- Approver, PaperExecutor and ResultReconciler; an approver that is no reconciler has the
  -- `record_result` that changes nothing.
  pub record Parts : Type 1 where
    pub Error : Type 0
    pub Analytics : Type 0
    pub Gate : Type 0
    pub process : MarketEvent N → Analytics → Result Error (Option (FeatureSnapshot N) × Analytics)
    pub plan : MarketEvent N → FeatureSnapshot N → Result Error (Option (TradePlan N))
    pub approve : StrategyDecision N → Gate → Result Error (RiskEvaluation N × Gate)
    pub execute : ApprovedTradePlan N → Result Error (ExecutionResult N)
    pub record_result : ApprovedTradePlan N → ExecutionResult N → Gate → Result Error Gate

  -- What the journal is told, in order.
  pub data Entry : Type 0 where
    market_event : MarketEvent N → Entry
    decision : StrategyDecision N → Entry
    evaluation : StrategyDecision N → RiskEvaluation N → Entry
    result : ApprovedTradePlan N → ExecutionResult N → Entry

  -- Where `_execute` stands: at its queue, in `executor.execute`, or in the journal's
  -- `record_execution_result`.
  pub data Execution : Type 0 where
    at_queue : Execution
    in_executor : ApprovedTradePlan N → Execution
    in_journal : ApprovedTradePlan N → ExecutionResult N → Execution

  module _ (parts : Parts) where
    open parts use {Error, Analytics, Gate, process, plan, approve, execute, record_result}

    -- `producing`, `deciding` and `evaluating` are what the first three tasks hold while the journal
    -- records it.
    pub record Pipeline : Type 0 where
      pub producing : Option (MarketEvent N)
      pub deciding : Option (StrategyDecision N)
      pub evaluating : Option (StrategyDecision N × RiskEvaluation N)
      pub executing : Execution
      pub remaining : List (MarketEvent N)
      pub data_queue : Channel (MarketEvent N)
      pub decision_queue : Channel (StrategyDecision N)
      pub approved_queue : Channel (ApprovedTradePlan N)
      pub analytics : Analytics
      pub approver : Gate
      pub events_received : ℕ
      pub feature_snapshots : ℕ
      pub plans_created : ℕ
      pub plans_approved : ℕ
      pub plans_rejected : ℕ
      pub approved_plans : List (ApprovedTradePlan N)
      pub results : List (ExecutionResult N)
      pub journal : List Entry
      pub failure : Option Error

    abbrev pub start : List (MarketEvent N) → Analytics → Gate → Pipeline
    start events analytics approver = record {
      producing = none;
      deciding = none;
      evaluating = none;
      executing = at_queue;
      remaining = events;
      data_queue = new_channel;
      decision_queue = new_channel;
      approved_queue = new_channel;
      analytics = analytics;
      approver = approver;
      events_received = 0;
      feature_snapshots = 0;
      plans_created = 0;
      plans_approved = 0;
      plans_rejected = 0;
      approved_plans = [];
      results = [];
      journal = [];
      failure = none;
    }

    -- `_produce`: the event that the journal has recorded is put, or the next one is taken.
    unfoldable pub produce : Pipeline → Option Pipeline
    produce s = elim s.producing [
      | some event ↦ some (record s {
        producing = none;
        journal = s.journal ++ market_event event ∷ [];
        data_queue = send (item event) s.data_queue;
      })
      | none ↦ elim s.remaining [
        | [] ↦
            if s.data_queue.is_ended
            then none
            else some (record s { data_queue = send sentinel s.data_queue })
        | event ∷ events ↦ some (record s {
          remaining = events;
          events_received = suc s.events_received;
          producing = some event;
        })
      ]
    ]

    -- The exception of a task ends the run.
    abbrev pub fails : Error → Pipeline → Pipeline
    fails error s = record s { failure = some error }

    abbrev pub planned :
        MarketEvent N → FeatureSnapshot N → Option (TradePlan N) → Pipeline → Pipeline
    planned event features none s = s
    planned event features (some plan) s =
        let made : StrategyDecision N = record {
          event = event;
          features = features;
          plan = plan;
        } in
        record s { plans_created = suc s.plans_created; deciding = some made }

    abbrev pub analyzed : MarketEvent N → Option (FeatureSnapshot N) → Pipeline → Pipeline
    analyzed event none s = s
    analyzed event (some features) s =
        let s' = record s { feature_snapshots = suc s.feature_snapshots } in
        elim (plan event features) [
          | err error ↦ fails error s'
          | ok made ↦ planned event features made s'
        ]

    -- `_analyze` on an event that it has taken
    unfoldable pub analyze_event : MarketEvent N → Pipeline → Pipeline
    analyze_event event s = elim (process event s.analytics) [
      | err error ↦ fails error s
      | ok (features, analytics) ↦ analyzed event features (record s { analytics = analytics })
    ]

    -- `_analyze`: the decision that the journal has recorded is put, or the next event is taken.
    unfoldable pub analyze : Pipeline → Option Pipeline
    unfolding analyze_event
    analyze s = elim s.deciding [
      | some made ↦ some (record s {
        deciding = none;
        journal = s.journal ++ decision made ∷ [];
        decision_queue = send (item made) s.decision_queue;
      })
      | none ↦ elim s.data_queue.items [
        | [] ↦ none
        | sentinel ∷ rest ↦ some (record s {
          data_queue = record s.data_queue { items = rest; is_drained = true };
          decision_queue = send sentinel s.decision_queue;
        })
        | item event ∷ rest ↦
            some
              (analyze_event event (record s { data_queue = record s.data_queue { items = rest } }))
      ]
    ]

    abbrev pub evaluated : Option (ApprovedTradePlan N) → Pipeline → Pipeline
    evaluated none s = record s { plans_rejected = suc s.plans_rejected }
    evaluated (some approved) s = record s {
      plans_approved = suc s.plans_approved;
      approved_plans = s.approved_plans ++ approved ∷ [];
      approved_queue = send (item approved) s.approved_queue;
    }

    -- `_approve` on a decision that it has taken
    unfoldable pub approve_decision : StrategyDecision N → Pipeline → Pipeline
    approve_decision made s = elim (approve made s.approver) [
      | err error ↦ fails error s
      | ok (ev, approver) ↦ record s { approver = approver; evaluating = some (made, ev) }
    ]

    -- `_approve`: the evaluation that the journal has recorded is counted, or the next decision is
    -- taken.
    unfoldable pub approve_next : Pipeline → Option Pipeline
    unfolding approve_decision
    approve_next s = elim s.evaluating [
      | some (made, ev) ↦ some (
          evaluated ev.approved
            (record s { evaluating = none; journal = s.journal ++ evaluation made ev ∷ [] }))
      | none ↦ elim s.decision_queue.items [
        | [] ↦ none
        | sentinel ∷ rest ↦ some (record s {
          decision_queue = record s.decision_queue { items = rest; is_drained = true };
          approved_queue = send sentinel s.approved_queue;
        })
        | item made ∷ rest ↦ some (
            approve_decision made
              (record s { decision_queue = record s.decision_queue { items = rest } }))
      ]
    ]

    -- `_execute` where the executor returns or raises
    unfoldable pub execute_plan : ApprovedTradePlan N → Pipeline → Pipeline
    execute_plan approved s = elim (execute approved) [
      | err error ↦ fails error s
      | ok outcome ↦ record s {
        results = s.results ++ outcome ∷ [];
        executing = in_journal approved outcome;
      }
    ]

    -- `_execute` on a result that the journal has recorded
    unfoldable pub settle_result : ApprovedTradePlan N → ExecutionResult N → Pipeline → Pipeline
    settle_result approved outcome s =
        let s' : Pipeline = record s {
          executing = at_queue;
          journal = s.journal ++ result approved outcome ∷ [];
        } in
        elim (record_result approved outcome s.approver) [
          | err error ↦ fails error s'
          | ok approver ↦ record s' { approver = approver }
        ]

    -- `_execute`
    unfoldable pub execute_next : Pipeline → Option Pipeline
    unfolding execute_plan settle_result
    execute_next s = elim s.executing [
      | in_executor approved ↦ some (execute_plan approved s)
      | in_journal approved outcome ↦ some (settle_result approved outcome s)
      | at_queue ↦ elim s.approved_queue.items [
        | [] ↦ none
        | sentinel ∷ rest ↦ some (record s {
          approved_queue = record s.approved_queue { items = rest; is_drained = true };
        })
        | item approved ∷ rest ↦ some (record s {
          approved_queue = record s.approved_queue { items = rest };
          executing = in_executor approved;
        })
      ]
    ]

    -- One step of a task: none where the task waits for an item, for a place of its last `put`, or has
    -- returned, or the run has failed. What the journal and the executor are asked for arrives.
    unfoldable pub step : ℕ → Task → Pipeline → Option Pipeline
    unfolding produce analyze approve_next execute_next
    step size task s = elim s.failure [
      | some error ↦ none
      | none ↦ elim task [
        | produces ↦ if has_room size s.data_queue then produce s else none
        | analyzes ↦ if has_room size s.decision_queue then analyze s else none
        | approves ↦ if has_room size s.approved_queue then approve_next s else none
        | executes ↦ execute_next s
      ]
    ]

    -- What the event loop does with a task that it picks.
    abbrev pub or_wait : Option Pipeline → Pipeline → Pipeline
    or_wait none s = s
    or_wait (some s') s = s'

    -- `run` up to `gather`, as the event loop picks the tasks: a task that waits changes nothing.
    abbrev pub run : ℕ → List Task → Pipeline → Pipeline
    run size [] s = s
    run size (task ∷ tasks) s = run size tasks (or_wait (step size task s) s)

    -- All four tasks have returned.
    abbrev pub is_finished : Pipeline → Bool
    is_finished s = s.approved_queue.is_drained

    pub record ReplayReport : Type 0 where
      pub events_received : ℕ
      pub feature_snapshots : ℕ
      pub plans_created : ℕ
      pub plans_approved : ℕ
      pub plans_rejected : ℕ
      pub filled : ℕ
      pub compensated : ℕ
      pub failed : ℕ

    -- `report`
    unfoldable pub report : Pipeline → ReplayReport
    report s = record {
      events_received = s.events_received;
      feature_snapshots = s.feature_snapshots;
      plans_created = s.plans_created;
      plans_approved = s.plans_approved;
      plans_rejected = s.plans_rejected;
      filled = count_if (λ r. is_status r.status ExecutionStatus.filled) s.results;
      compensated = count_if (λ r. is_status r.status ExecutionStatus.compensated) s.results;
      failed =
          count_if
            (λ r.
              is_status r.status ExecutionStatus.failed
              || is_status r.status ExecutionStatus.partially_filled)
            s.results;
    }
