-- ===== src/Simulation/Approval/Gate.antt =====
-- simulation/approval.py: the approver's state and `approve`, which may also raise what the checks
-- of a replaced plan raise.
use llm_arbitrage_system.Base.{
  ◌+◌, String, Bool, true, false, ◌||◌, Option, none, some, List, [], ◌∷◌, ◌++◌, map, str_eq,
}
use llm_arbitrage_system.Base.Tests.{if◌then◌else◌}
use llm_arbitrage_system.Base.Lists.{length}
use llm_arbitrage_system.Base.Result.{Result, ok, ◌>>=◌}
use llm_arbitrage_system.Base.Int.{ℤ, ◌-ℤ◌}
use llm_arbitrage_system.Domain.Numbers.{Numbers, zero_d, equal_d, max_d, sum_d, largest, smallest}
use llm_arbitrage_system.Domain.Contracts.{Value, flag, number, nothing, Dict, get, ContractError}
use llm_arbitrage_system.Domain.Plans.{
  OrderLeg, TradePlan, StrategyDecision, PortfolioSnapshot, ApprovedTradePlan, quantity,
  gross_notional_usd, max_leg_notional_usd, with_slippage_cap,
}
use llm_arbitrage_system.Simulation.Dicts.{assign, contains}

-- The texts that `approve` collects, in the order of its checks.
pub data Reason : Type 0 where
  halted : String → Reason
  stale future_event edge_too_low leg_too_large already_open already_reserved : Reason
  budget_exceeded legs_imbalanced : Reason

-- the reason, if the test holds
abbrev pub when : Bool → Reason → List Reason
when true reason = reason ∷ []
when false reason = []

abbrev pub when_halted : Option String → List Reason
when_halted none = []
when_halted (some reason) = halted reason ∷ []

-- `approved is None` of a `RiskEvaluation`
abbrev pub is_empty : List Reason → Bool
is_empty [] = true
is_empty (_ ∷ _) = false

module _ (N : Numbers) where
  open N use {
    Decimal, Float, add, sub, mul, div, neg, less, float_less, float_neg, float, total_seconds,
    show,
  }

  -- `PaperApprovalLimits`
  pub record PaperApprovalLimits : Type 0 where
    pub maximum_event_age_seconds : Float
    pub minimum_edge_bps : Decimal
    pub maximum_leg_notional_usd : Decimal
    pub maximum_gross_exposure_usd : Decimal
    pub maximum_leg_imbalance_pct : Decimal
    pub maximum_slippage_bps : Decimal

  -- The fields of `StatefulPaperApprover` that change; a reservation is a position key and an amount.
  pub record Approver : Type 0 where
    pub reservations : Dict (String × Decimal)
    pub open_exposure : Dict Decimal
    pub halt_reason : Option String

  pub record RiskEvaluation : Type 0 where
    pub approved : Option (ApprovedTradePlan N)
    pub reasons : List Reason

  -- `str(value)`
  unfoldable pub str_of : Value N → String
  str_of (Value.text t) = t
  str_of (flag true) = "True"
  str_of (flag false) = "False"
  str_of (number d) = show d
  str_of nothing = "None"

  abbrev key_or : Option (Value N) → String → String
  key_or none plan_id = plan_id
  key_or (some value) plan_id = str_of value

  -- `str(plan.context.get("position_key", plan.plan_id))`
  unfoldable pub position_key : TradePlan N → String
  unfolding str_of
  position_key plan = key_or (get "position_key" plan.context) plan.plan_id

  abbrev pub amounts : Dict (String × Decimal) → List Decimal
  amounts reservations = map (λ r. (r.1).1) reservations

  -- `gross_exposure_usd`
  unfoldable pub gross_exposure_usd : Approver → Decimal
  gross_exposure_usd s =
      add (sum_d N (map (λ e. e.1) s.open_exposure)) (sum_d N (amounts s.reservations))

  -- `any(key == position_key for key, _ in self._reservations.values())`
  abbrev pub is_reserved : String → Dict (String × Decimal) → Bool
  is_reserved key [] = false
  is_reserved key ((_, (k, _)) ∷ rest) = str_eq k key || is_reserved key rest

  -- `_quantity_imbalance`
  unfoldable pub quantity_imbalance : List (OrderLeg N) → Decimal
  quantity_imbalance [] = zero_d N
  quantity_imbalance (leg ∷ []) = zero_d N
  quantity_imbalance (leg ∷ legs) =
      let rest = map (quantity N) legs in
      let top = largest N (quantity N leg) rest in
      if equal_d N top (zero_d N)
      then zero_d N
      else div (sub top (smallest N (quantity N leg) rest)) top

  -- The nine checks, with the age in seconds and the largest leg computed before.
  unfoldable pub reasons_of :
      PaperApprovalLimits → Float → Decimal → TradePlan N → Approver → List Reason
  unfolding position_key gross_exposure_usd quantity_imbalance
  reasons_of limits age largest_leg plan s =
      when_halted s.halt_reason
      ++ (when (float_less limits.maximum_event_age_seconds age) stale
          ++ (when (float_less age (float_neg (float 1 1))) future_event
              ++ (when (less plan.expected_edge_bps limits.minimum_edge_bps) edge_too_low
                  ++ (when (less limits.maximum_leg_notional_usd largest_leg) leg_too_large
                      ++ (when (contains (position_key plan) s.open_exposure) already_open
                          ++ (when (is_reserved (position_key plan) s.reservations) already_reserved
                              ++ (when
                                    (less limits.maximum_gross_exposure_usd
                                      (add (gross_exposure_usd s) (gross_notional_usd N plan)))
                                    budget_exceeded
                                  ++ when
                                      (less limits.maximum_leg_imbalance_pct
                                        (quantity_imbalance plan.legs))
                                      legs_imbalanced)))))))

  abbrev risk_checks : List String
  risk_checks =
      "freshness" ∷ "edge" ∷ "notional" ∷ "gross_exposure" ∷ "position_reservation" ∷ "leg_balance"
      ∷ "slippage_cap" ∷ []

  -- `snapshot` in `approve`
  abbrev pub portfolio : PaperApprovalLimits → Approver → PortfolioSnapshot N
  portfolio limits s = record {
    equity_usd = limits.maximum_gross_exposure_usd;
    available_balance_usd =
        max_d N (zero_d N) (sub limits.maximum_gross_exposure_usd (gross_exposure_usd s));
    gross_exposure_usd = gross_exposure_usd s;
    daily_pnl_usd = zero_d N;
    open_plan_count = length s.open_exposure + length s.reservations;
  }

  abbrev pub reserved : TradePlan N → Approver → Approver
  reserved plan s = record s {
    reservations =
        assign plan.plan_id (position_key plan, gross_notional_usd N plan) s.reservations;
  }

  -- the evaluation that accepts a plan
  abbrev pub approval : PaperApprovalLimits → ℤ → TradePlan N → Approver → RiskEvaluation
  approval limits now capped s = record {
    approved = some (record {
      plan = capped;
      approved_at = now;
      risk_checks = risk_checks;
      portfolio = portfolio limits s;
    });
    reasons = [];
  }

  -- `approve` behind its checks
  unfoldable pub admit :
      PaperApprovalLimits
      → ℤ
      → TradePlan N
      → Approver
      → Result ContractError (RiskEvaluation × Approver)
  unfolding with_slippage_cap
  admit limits now plan s = do
    capped ← with_slippage_cap N limits.maximum_slippage_bps plan
    ok (approval limits now capped s, reserved plan s)

  -- `approve`; `now` is the event's timestamp in replay mode and the clock's otherwise
  unfoldable pub approve :
      PaperApprovalLimits
      → Bool
      → ℤ
      → StrategyDecision N
      → Approver
      → Result ContractError (RiskEvaluation × Approver)
  unfolding max_leg_notional_usd reasons_of admit
  approve limits replay_mode clock decision s = do
    let plan = decision.plan
    let now = if replay_mode then decision.event.timestamp else clock
    largest_leg ← max_leg_notional_usd N plan.legs
    let reasons =
        reasons_of limits (total_seconds (now -ℤ decision.event.timestamp)) largest_leg plan s
    if is_empty reasons
        then admit limits now plan s
        else ok (record { approved = none; reasons = reasons }, s)
