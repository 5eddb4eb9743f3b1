-- ===== src/Simulation/Approval/Decisions.antt =====
-- What `approve` decides, on every path.
use llm_arbitrage_system.Base.{
  ◌≡◌, ◌≢◌, refl, ap, ◌∙◌, subst, inl, inr, Bool, true, false, Option, none, some, List, [], ◌∷◌,
  map, arith,
}
use llm_arbitrage_system.Base.Tests.{if◌then◌else◌, Bool-cases}
use llm_arbitrage_system.Base.Result.{ok, returned, Result-cases}
use llm_arbitrage_system.Base.Int.{ℤ, ◌-ℤ◌}
use llm_arbitrage_system.Domain.Numbers.{Numbers}
use llm_arbitrage_system.Domain.Plans.{
  OrderLeg, TradePlan, StrategyDecision, ApprovedTradePlan, gross_notional_usd,
  max_leg_notional_usd, with_slippage_cap, each_leg, check_leg, check_plan, capped_leg,
}
use llm_arbitrage_system.Simulation.Dicts.{contains}
use llm_arbitrage_system.Simulation.Approval.Gate.{
  Reason, PaperApprovalLimits, Approver, RiskEvaluation, position_key, gross_exposure_usd,
  is_reserved, quantity_imbalance, reasons_of, reserved, approval, admit, approve, is_empty,
}

module _ (N : Numbers) where
  open N use {Decimal, Float, add, less, float_less, float_neg, float, total_seconds}

  -- What a plan must meet, check by check.
  pub record Admissible (limits : PaperApprovalLimits N) (age : Float) (largest_leg : Decimal)
      (plan : TradePlan N) (s : Approver N) : Type 0 where
    pub not_halted : s.halt_reason ≡ none
    pub fresh : float_less limits.maximum_event_age_seconds age ≡ false
    pub not_future : float_less age (float_neg (float 1 1)) ≡ false
    pub edge : less plan.expected_edge_bps limits.minimum_edge_bps ≡ false
    pub leg_size : less limits.maximum_leg_notional_usd largest_leg ≡ false
    pub not_open : contains (position_key N plan) s.open_exposure ≡ false
    pub not_reserved : is_reserved N (position_key N plan) s.reservations ≡ false
    pub budget :
        less limits.maximum_gross_exposure_usd
          (add (gross_exposure_usd N s) (gross_notional_usd N plan))
        ≡ false
    pub balance : less limits.maximum_leg_imbalance_pct (quantity_imbalance N plan.legs) ≡ false

  is_empty-Admissible :
      (limits : PaperApprovalLimits N) (age : Float) (largest_leg : Decimal) (plan : TradePlan N)
      (s : Approver N)
      → is_empty (reasons_of N limits age largest_leg plan s) ≡ true
      → Admissible limits age largest_leg plan s
  unfolding reasons_of
  is_empty-Admissible limits age largest_leg plan s h = ground arith

  Admissible-is_empty :
      (limits : PaperApprovalLimits N) (age : Float) (largest_leg : Decimal) (plan : TradePlan N)
      (s : Approver N)
      → Admissible limits age largest_leg plan s
      → reasons_of N limits age largest_leg plan s ≡ []
  unfolding reasons_of
  Admissible-is_empty limits age largest_leg plan s h = ground arith

  abbrev pub capped_plan : PaperApprovalLimits N → TradePlan N → TradePlan N
  capped_plan limits plan = record plan {
    legs = map (capped_leg N limits.maximum_slippage_bps) plan.legs;
  }

  check_plan_same : (plan plan' : TradePlan N) → check_plan N plan ≡ ok plan' → plan' ≡ plan
  unfolding check_plan
  check_plan_same plan plan' h = ground arith

  each_leg-capped :
      (bps : Decimal) (legs legs' : List (OrderLeg N))
      → each_leg N (λ leg. check_leg N (capped_leg N bps leg)) legs ≡ ok legs'
      → legs' ≡ map (capped_leg N bps) legs
  unfolding each_leg check_leg
  each_leg-capped bps [] legs' h = cc
  each_leg-capped bps (leg ∷ legs) legs' h =
      elim (Result-cases (each_leg N (λ l. check_leg N (capped_leg N bps l)) legs)) [
        | inl (rest, e) ↦ ground (arith, each_leg-capped bps legs rest e)
        | inr (error, e) ↦ absurd (ground arith)
      ]

  with_slippage_cap-capped :
      (limits : PaperApprovalLimits N) (plan plan' : TradePlan N)
      → with_slippage_cap N limits.maximum_slippage_bps plan ≡ ok plan'
      → plan' ≡ capped_plan limits plan
  unfolding with_slippage_cap
  with_slippage_cap-capped limits plan plan' h =
      let bps = limits.maximum_slippage_bps in
      let (legs, made, rest) =
        returned (λ legs. check_plan N (record plan { legs = legs })) plan'
          (each_leg N (λ leg. check_leg N (capped_leg N bps leg)) plan.legs) h in
      check_plan_same (record plan { legs = legs }) plan' rest
      ∙ ap (λ ls. record plan { legs = ls }) (each_leg-capped bps plan.legs legs made)

  -- What a call of `approve` has decided: an accepted plan met every check, is the given one with its
  -- slippage capped, and holds a reservation; a rejected one failed a check and changed nothing.
  abbrev pub Decided :
      PaperApprovalLimits N
      → ℤ
      → Float
      → Decimal
      → TradePlan N
      → Approver N
      → Option (ApprovedTradePlan N)
      → List Reason
      → Approver N
      → Type 0
  Decided limits now age largest_leg plan s none reasons s' =
      (s' ≡ s) × (reasons ≢ []) × ¬ Admissible limits age largest_leg plan s
  Decided limits now age largest_leg plan s (some a) reasons s' =
      Admissible limits age largest_leg plan s
      × (reasons ≡ [])
      × (a.plan ≡ capped_plan limits plan)
      × (a.approved_at ≡ now)
      × (s' ≡ reserved N plan s)

  admit-Decided :
      (limits : PaperApprovalLimits N) (now : ℤ) (age : Float) (largest_leg : Decimal)
      (plan : TradePlan N) (s s' : Approver N) (ev : RiskEvaluation N)
      → Admissible limits age largest_leg plan s
      → admit N limits now plan s ≡ ok (ev, s')
      → Decided limits now age largest_leg plan s ev.approved ev.reasons s'
  unfolding admit
  admit-Decided limits now age largest_leg plan s s' ev fits h =
      elim (Result-cases (with_slippage_cap N limits.maximum_slippage_bps plan)) [
        | inl (plan', made) ↦
            let made_up : RiskEvaluation N × Approver N =
              (approval N limits now plan' s, reserved N plan s) in
            let e : made_up ≡ (ev, s') = ground arith in
            subst (λ r. Decided limits now age largest_leg plan s (r.0).approved (r.0).reasons r.1)
              e (fits, refl, with_slippage_cap-capped limits plan plan' made, refl, refl)
        | inr (error, e) ↦ absurd (ground arith)
      ]

  decide-Decided :
      (limits : PaperApprovalLimits N) (now : ℤ) (age : Float) (largest_leg : Decimal)
      (plan : TradePlan N) (s s' : Approver N) (ev : RiskEvaluation N)
      → (if is_empty (reasons_of N limits age largest_leg plan s)
          then admit N limits now plan s
          else ok
              (record { approved = none; reasons = reasons_of N limits age largest_leg plan s }, s))
        ≡ ok (ev, s')
      → Decided limits now age largest_leg plan s ev.approved ev.reasons s'
  decide-Decided limits now age largest_leg plan s s' ev h =
      elim (Bool-cases (is_empty (reasons_of N limits age largest_leg plan s))) [
        | inl clear ↦
            admit-Decided limits now age largest_leg plan s s' ev
              (is_empty-Admissible limits age largest_leg plan s clear) (rw clear at h)
        | inr failed ↦
            let rejected : RiskEvaluation N × Approver N = (
              record { approved = none; reasons = reasons_of N limits age largest_leg plan s },
              s,
            ) in
            let e : rejected ≡ (ev, s') = ground arith in
            subst (λ r. Decided limits now age largest_leg plan s (r.0).approved (r.0).reasons r.1)
              e
              (
                refl,
                λ none_there. ground arith,
                λ fits. ground (arith, Admissible-is_empty limits age largest_leg plan s fits),
              )
      ]

  -- the age that `approve` checks
  abbrev pub age_at : Bool → ℤ → StrategyDecision N → Float
  age_at replay_mode clock decision =
      total_seconds
        ((if replay_mode then decision.event.timestamp else clock) -ℤ decision.event.timestamp)

  -- Every call of `approve` that returns has either accepted a plan that passes all nine checks,
  -- given no reason, capped each leg's slippage and otherwise kept the plan, and reserved the plan's
  -- notional under its position key, changing nothing else; or rejected a plan that fails a check,
  -- with at least one reason, and changed nothing.
  pub approve-Decided :
      (limits : PaperApprovalLimits N) (replay_mode : Bool) (clock : ℤ)
      (decision : StrategyDecision N) (s s' : Approver N) (ev : RiskEvaluation N)
      → approve N limits replay_mode clock decision s ≡ ok (ev, s')
      → (largest_leg : Decimal) × (max_leg_notional_usd N decision.plan.legs ≡ ok largest_leg)
        × Decided limits
            (if replay_mode then decision.event.timestamp else clock)
            (age_at replay_mode clock decision)
            largest_leg
            decision.plan
            s
            ev.approved
            ev.reasons
            s'
  unfolding approve
  approve-Decided limits replay_mode clock decision s s' ev h =
      elim (Result-cases (max_leg_notional_usd N decision.plan.legs)) [
        | inl (largest_leg, e) ↦ (
          largest_leg,
          e,
          decide-Decided limits _ _ largest_leg decision.plan s s' ev (rw e at h),
        )
        | inr (error, e) ↦ absurd (ground arith)
      ]
