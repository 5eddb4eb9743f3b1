-- ===== src/Simulation/Executor/Residual.antt =====
-- The executor's results as the approver settles them.
use llm_arbitrage_system.Base.{String, ◌≡◌, refl, inl, inr, false, List, [], ◌∷◌}
use llm_arbitrage_system.Base.Tests.{Option-cases}
use llm_arbitrage_system.Domain.Numbers.{Numbers, zero_d}
use llm_arbitrage_system.Domain.Contracts.{Fill, get}
use llm_arbitrage_system.Domain.Plans.{ApprovedTradePlan}
use llm_arbitrage_system.Simulation.Dicts.{discard}
use llm_arbitrage_system.Simulation.Approval.Gate.{Approver}
use llm_arbitrage_system.Simulation.Approval.Settlement.{
  residual_notional, record_result, settle, record_residual,
}
use llm_arbitrage_system.Simulation.Executor.{LegError, Costs, result_of, execute}

module _ (N : Numbers) (message : List LegError → String) where
  settle-keeps_running :
      (plan_id : String) (errors : List LegError) (fills : List (Fill N)) (id key : String)
      (s : Approver N)
      → N.less (zero_d N) (zero_d N) ≡ false
      → let r = result_of N message plan_id errors fills in
        (settle N r.status id key r s).halt_reason ≡ s.halt_reason
  unfolding result_of settle record_residual residual_notional
  settle-keeps_running plan_id [] fills id key s irrefl = refl
  settle-keeps_running plan_id (e ∷ errors) [] id key s irrefl = rw irrefl
  settle-keeps_running plan_id (e ∷ errors) (f ∷ fills) id key s irrefl = refl

  -- No result of this executor halts the approver: recording it leaves the halt reason as it was.
  pub record_result-execute :
      N.less (zero_d N) (zero_d N) ≡ false
      → (costs : Costs N) (approved : ApprovedTradePlan N) (s : Approver N)
      → (record_result N approved.plan.plan_id (execute N message costs approved) s).halt_reason
        ≡ s.halt_reason
  unfolding record_result execute
  record_result-execute irrefl costs approved s =
      elim (Option-cases (get approved.plan.plan_id s.reservations)) [
        | inl missing ↦ rw (missing, record_result)
        | inr ((key, amount), found) ↦
            rw (found, record_result)
              (settle-keeps_running approved.plan.plan_id _ _ approved.plan.plan_id key
                (record s { reservations = discard approved.plan.plan_id s.reservations }) irrefl)
      ]
