-- ===== src/Simulation/Executor/Tests.antt =====
-- The executor where the second of two legs fails.
use llm_arbitrage_system.Base.{String, ◌≡◌, ◌≢◌, refl, none, List, [], map}
use llm_arbitrage_system.Base.Lists.{length}
use llm_arbitrage_system.Base.Int.{◌+ℤ◌}
use llm_arbitrage_system.Domain.Contracts.{ExecutionStatus}
use llm_arbitrage_system.Domain.Whole.{whole}
use llm_arbitrage_system.Simulation.Samples.{approved, second_fails, idle, plan}
use llm_arbitrage_system.Simulation.Approval.Gate.{reserved}
use llm_arbitrage_system.Simulation.Approval.Settlement.{record_result}
use llm_arbitrage_system.Simulation.Executor.{LegError, reverse_fill, execute}
use llm_arbitrage_system.Simulation.Executor.Outcomes.{filling, Explains, execute-Explains}
use llm_arbitrage_system.Simulation.Executor.Residual.{record_result-execute}

abbrev message : List LegError → String
message errors = "failed"

second_leg_fails :
    (execute whole message second_fails approved).status ≡ ExecutionStatus.compensated
unfolding execute ◌+ℤ◌
second_leg_fails = refl

execute-Explains_example :
    let r = execute whole message second_fails approved in
    let filled = filling whole second_fails "p1" 0 approved.plan.legs in
    Explains r.status filled 2
    × (length r.fills ≡ filled)
    × (r.status ≡ ExecutionStatus.compensated
        → r.compensated_fills ≡ map (reverse_fill whole) r.fills)
    × (r.status ≢ ExecutionStatus.compensated → r.compensated_fills ≡ [])
execute-Explains_example = execute-Explains whole message second_fails approved

record_result-execute_example :
    (record_result whole "p1"
      (execute whole message second_fails approved)
      (reserved whole plan idle)).halt_reason
    ≡ none
record_result-execute_example =
    record_result-execute whole message refl second_fails approved (reserved whole plan idle)
