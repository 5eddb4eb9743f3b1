-- ===== src/Simulation/Approval/Tests.antt =====
-- The approver on a hedged pair of legs.
use llm_arbitrage_system.Base.{◌≡◌, refl, true, false, none, List, [], ◌∷◌}
use llm_arbitrage_system.Base.Result.{ok}
use llm_arbitrage_system.Base.Int.{ℤ, pos, ltb_ℤ, ◌+ℤ◌, ◌-ℤ◌}
use llm_arbitrage_system.Domain.Plans.{max_leg_notional_usd}
use llm_arbitrage_system.Domain.Whole.{whole}
use llm_arbitrage_system.Simulation.Samples.{decision, limits, idle, plan, pair}
use llm_arbitrage_system.Simulation.Approval.Gate.{
  RiskEvaluation, already_reserved, approve, approval, reserved, gross_exposure_usd, position_key,
}
use llm_arbitrage_system.Simulation.Approval.Decisions.{
  Decided, capped_plan, age_at, approve-Decided,
}
use llm_arbitrage_system.Simulation.Approval.Exclusive.{IsExclusive, is_residual}
use llm_arbitrage_system.Simulation.Approval.Calls.{Call, approves, releases, run, run-IsExclusive}
use llm_arbitrage_system.Simulation.Approval.Budget.{checked_sum, approve-budget}

abbrev accepted : RiskEvaluation whole
accepted = approval whole limits (pos 1000000) (capped_plan whole limits plan) idle

approve-decision :
    approve whole limits true (pos 0) decision idle ≡ ok (accepted, reserved whole plan idle)
unfolding approve ◌+ℤ◌ ◌-ℤ◌
approve-decision = refl

second_decision :
    approve whole limits true (pos 0) decision (reserved whole plan idle)
    ≡ ok (record { approved = none; reasons = already_reserved ∷ [] }, reserved whole plan idle)
unfolding approve ◌+ℤ◌ ◌-ℤ◌
second_decision = refl

approve-Decided_example :
    (largest_leg : ℤ) × (max_leg_notional_usd whole pair ≡ ok largest_leg)
    × Decided whole limits
        (pos 1000000)
        (age_at whole true (pos 0) decision)
        largest_leg
        plan
        idle
        accepted.approved
        []
        (reserved whole plan idle)
approve-Decided_example =
    approve-Decided whole limits true (pos 0) decision idle (reserved whole plan idle) accepted
      approve-decision

approve-budget_example :
    (gross_exposure_usd whole (reserved whole plan idle) ≡ checked_sum whole plan idle)
    × (ltb_ℤ (pos 500) (gross_exposure_usd whole (reserved whole plan idle)) ≡ false)
unfolding gross_exposure_usd ◌+ℤ◌
approve-budget_example =
    approve-budget whole limits true (pos 0) decision idle (reserved whole plan idle) accepted _
      refl refl approve-decision refl

abbrev history : List (Call whole)
history = approves (pos 0) decision ∷ approves (pos 0) decision ∷ releases "p2" ∷ []

fresh_key : is_residual whole (position_key whole plan) ≡ false
unfolding position_key
fresh_key = refl

run-IsExclusive_example : IsExclusive whole (run whole limits true history idle)
run-IsExclusive_example =
    run-IsExclusive whole limits true history idle (fresh_key, (fresh_key, (tt, tt))) refl
