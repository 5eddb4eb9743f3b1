-- ===== src/Simulation/Approval/Budget.antt =====
-- The gross-exposure budget.
use llm_arbitrage_system.Base.{
  String, ◌≡◌, refl, ap, sym, ◌∙◌, Bool, false, Option, none, some, List, [], ◌∷◌, map, arith,
}
use llm_arbitrage_system.Base.Result.{ok}
use llm_arbitrage_system.Base.Int.{ℤ}
use llm_arbitrage_system.Domain.Numbers.{Numbers, sum_d, sum_from}
use llm_arbitrage_system.Domain.Contracts.{Dict}
use llm_arbitrage_system.Domain.Plans.{
  TradePlan, StrategyDecision, ApprovedTradePlan, gross_notional_usd,
}
use llm_arbitrage_system.Simulation.Dicts.{assign, contains}
use llm_arbitrage_system.Simulation.Approval.Gate.{
  Reason, PaperApprovalLimits, Approver, RiskEvaluation, position_key, gross_exposure_usd, amounts,
  reserved, approve,
}
use llm_arbitrage_system.Simulation.Approval.Decisions.{Decided, approve-Decided}

module _ (N : Numbers) where
  open N use {Decimal, Float, add, less}

  sum_from-assign :
      (total amount : Decimal) (plan_id key : String) (rs : Dict (String × Decimal))
      → contains plan_id rs ≡ false
      → sum_from N total (amounts N (assign plan_id (key, amount) rs))
        ≡ add (sum_from N total (amounts N rs)) amount
  sum_from-assign total amount plan_id key [] fresh = refl
  sum_from-assign total amount plan_id key ((p, (k, a)) ∷ rs) fresh =
      ground (arith, sum_from-assign (add total a) amount plan_id key rs)

  -- The exposure before the call, and the same with the plan's notional, summed as the check sums it
  -- and as gross_exposure_usd does once the notional is reserved.
  abbrev pub checked_sum : TradePlan N → Approver N → Decimal
  checked_sum plan s = add (gross_exposure_usd N s) (gross_notional_usd N plan)

  abbrev pub reserved_sum : TradePlan N → Approver N → Decimal
  reserved_sum plan s =
      add (sum_d N (map (λ e. e.1) s.open_exposure))
        (add (sum_d N (amounts N s.reservations)) (gross_notional_usd N plan))

  -- A new reservation adds the plan's notional to the reserved amounts.
  gross_exposure-reserved :
      (plan : TradePlan N) (s : Approver N)
      → contains plan.plan_id s.reservations ≡ false
      → gross_exposure_usd N (reserved N plan s) ≡ reserved_sum plan s
  unfolding gross_exposure_usd
  gross_exposure-reserved plan s fresh = ap (add (sum_d N (map (λ e. e.1) s.open_exposure))) (
      sum_from-assign (N.decimal 0) (gross_notional_usd N plan) plan.plan_id (position_key N plan)
        s.reservations fresh)

  Decided-budget :
      (limits : PaperApprovalLimits N) (now : ℤ) (age : Float) (largest_leg : Decimal)
      (plan : TradePlan N) (o : Option (ApprovedTradePlan N)) (a : ApprovedTradePlan N)
      (reasons : List Reason) (s s' : Approver N)
      → contains plan.plan_id s.reservations ≡ false
      → o ≡ some a
      → Decided N limits now age largest_leg plan s o reasons s'
      → (less limits.maximum_gross_exposure_usd (checked_sum plan s) ≡ false)
        × (gross_exposure_usd N s' ≡ reserved_sum plan s)
  Decided-budget limits now age largest_leg plan none a reasons s s' fresh accepted d = absurd (cc)
  Decided-budget limits now age largest_leg plan (some b) a reasons s s' fresh accepted
        (fits, _, _, _, e) =
      (fits.budget, rw e (gross_exposure-reserved plan s fresh))

  -- An accepted plan does not take the gross exposure over its limit: where the plan's id is not
  -- reserved yet, and the sum of the open exposure, the reserved amounts and the plan's notional is the
  -- same in the two groupings in which the check and gross_exposure_usd add these three amounts, the
  -- exposure after the call, with the new reservation counted, is the sum that the check compared, and
  -- is not above maximum_gross_exposure_usd.
  pub approve-budget :
      (limits : PaperApprovalLimits N) (replay_mode : Bool) (clock : ℤ)
      (decision : StrategyDecision N) (s s' : Approver N) (ev : RiskEvaluation N)
      (a : ApprovedTradePlan N)
      → contains decision.plan.plan_id s.reservations ≡ false
      → checked_sum decision.plan s ≡ reserved_sum decision.plan s
      → approve N limits replay_mode clock decision s ≡ ok (ev, s')
      → ev.approved ≡ some a
      → (gross_exposure_usd N s' ≡ checked_sum decision.plan s)
        × (less limits.maximum_gross_exposure_usd (gross_exposure_usd N s') ≡ false)
  approve-budget limits replay_mode clock decision s s' ev a fresh same done accepted =
      let (largest_leg, _, d) = approve-Decided N limits replay_mode clock decision s s' ev done in
      let (within, sum) =
        Decided-budget limits _ _ largest_leg decision.plan ev.approved a ev.reasons s s' fresh
          accepted d in
      (sum ∙ sym same, rw (sum, ← same) within)
