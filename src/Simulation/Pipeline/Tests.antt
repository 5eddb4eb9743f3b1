-- ===== src/Simulation/Pipeline/Tests.antt =====
-- A pipeline of three events, whose parts are simple functions.
use llm_arbitrage_system.Base.{◌≡◌, refl, Bool, true, false, none, some, List, [], ◌∷◌}
use llm_arbitrage_system.Base.Tests.{if◌then◌else◌}
use llm_arbitrage_system.Base.Lists.{length}
use llm_arbitrage_system.Base.Result.{ok}
use llm_arbitrage_system.Base.Int.{pos, ◌+ℤ◌, ◌-ℤ◌}
use llm_arbitrage_system.Domain.Contracts.{MarketEvent}
use llm_arbitrage_system.Domain.Whole.{whole}
use llm_arbitrage_system.Simulation.Samples.{event, features, plan, second_fails, limits, idle}
use llm_arbitrage_system.Simulation.Approval.Gate.{Approver, approve}
use llm_arbitrage_system.Simulation.Approval.Settlement.{record_result}
use llm_arbitrage_system.Simulation.Executor.{execute}
use llm_arbitrage_system.Domain.Contracts.{ContractError}
use llm_arbitrage_system.Simulation.Pipeline.{
  Parts, Pipeline, Task, produces, analyzes, approves, executes, start, run, report, is_finished,
  step,
}
use llm_arbitrage_system.Simulation.Pipeline.Balance.{unsettled}
use llm_arbitrage_system.Simulation.Pipeline.Progress.{CanMove, run-CanMove}
use llm_arbitrage_system.Simulation.Pipeline.Report.{
  IsConserved, IsComplete, run-IsConserved, finished-IsComplete,
}

-- the approver and the executor of this library; every event after the first is planned
abbrev parts : Parts whole
parts = record {
  Error = ContractError;
  Analytics = Bool;
  Gate = Approver whole;
  process = λ e seen. ok ((if seen then some features else none), true);
  plan = λ e f. ok (some plan);
  approve = approve whole limits true (pos 0);
  execute = λ approved. ok (execute whole (λ errors. "failed") second_fails approved);
  record_result = λ approved outcome g. ok (record_result whole approved.plan.plan_id outcome g);
}

abbrev events : List (MarketEvent whole)
events = event ∷ event ∷ event ∷ []

-- Two turns of a task for each event, plan and approval, and three for an execution.
abbrev turns : List Task
turns =
    produces ∷ produces ∷ produces ∷ produces ∷ executes ∷ analyzes ∷ analyzes ∷ produces ∷ produces
    ∷ analyzes ∷ approves ∷ produces ∷ analyzes ∷ approves ∷ analyzes ∷ approves ∷ executes
    ∷ analyzes ∷ executes ∷ approves ∷ executes ∷ approves ∷ executes ∷ executes ∷ executes
    ∷ executes ∷ []

abbrev final : Pipeline whole parts
final = run whole parts 1 turns (start whole parts events false idle)

no_failure : final.failure ≡ none
unfolding step approve execute record_result ◌+ℤ◌ ◌-ℤ◌
no_failure = refl

ended : is_finished whole parts final ≡ true
unfolding step approve execute record_result ◌+ℤ◌ ◌-ℤ◌
ended = refl

finished-IsComplete_example :
    IsComplete whole parts 1 3 (report whole parts final)
    × (length final.results ≡ length final.approved_plans)
finished-IsComplete_example =
    finished-IsComplete whole parts 1 events false idle turns no_failure ended

-- the first five turns
abbrev halfway : Pipeline whole parts
halfway =
    run whole parts 1 (produces ∷ produces ∷ produces ∷ executes ∷ analyzes ∷ [])
      (start whole parts events false idle)

halfway_fine : halfway.failure ≡ none
unfolding step
halfway_fine = refl

halfway_open : is_finished whole parts halfway ≡ false
unfolding step
halfway_open = refl

run-CanMove_example : CanMove whole parts 1 halfway
run-CanMove_example =
    run-CanMove whole parts 1 events false idle
      (produces ∷ produces ∷ produces ∷ executes ∷ analyzes ∷ []) halfway_fine halfway_open

-- the first seventeen turns, up to where the first approved plan is in the executor
abbrev early : List Task
early =
    produces ∷ produces ∷ produces ∷ produces ∷ executes ∷ analyzes ∷ analyzes ∷ produces ∷ produces
    ∷ analyzes ∷ approves ∷ produces ∷ analyzes ∷ approves ∷ analyzes ∷ approves ∷ executes ∷ []

abbrev underway : Pipeline whole parts
underway = run whole parts 1 early (start whole parts events false idle)

underway_fine : underway.failure ≡ none
unfolding step approve ◌+ℤ◌ ◌-ℤ◌
underway_fine = refl

-- A plan is approved, in no queue, and has no result.
plan_in_executor :
    (underway.plans_approved ≡ 1)
    × (underway.approved_queue.items ≡ [])
    × (underway.results ≡ [])
    × (unsettled underway.executing ≡ 1)
unfolding step approve ◌+ℤ◌ ◌-ℤ◌
plan_in_executor = (refl, refl, refl, refl)

run-IsConserved_example : IsConserved whole parts 1 events underway
run-IsConserved_example = run-IsConserved whole parts 1 events false idle early underway_fine
