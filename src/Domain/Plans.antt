-- ===== src/Domain/Plans.antt =====
-- domain/contracts.py: trade plans, and the records that carry them through approval and execution.
use llm_arbitrage_system.Base.{ℕ, String, Bool, true, false, not, ◌&&◌, Option, List, [], ◌∷◌, map}
use llm_arbitrage_system.Base.Result.{Result, ok, err, raise_if, ◌>>=◌, ◌>>◌}
use llm_arbitrage_system.Base.Int.{ℤ}
use llm_arbitrage_system.Domain.Numbers.{
  Numbers, zero_d, at_most, min_d, sum_d, largest, float_at_most,
}
use llm_arbitrage_system.Domain.Contracts.{
  Venue, InstrumentKind, Side, SignalKind, ExecutionStatus, Value, Dict, MarketEvent,
  FeatureSnapshot, Fill, ContractError, reference_not_positive, notional_not_positive,
  slippage_negative, scale_not_positive, no_legs, confidence_out_of_range,
}

module _ (N : Numbers) where
  open N use {Decimal, Float, mul, div, less, float}

  pub record OrderLeg : Type 0 where
    pub venue : Venue
    pub symbol : String
    pub instrument : InstrumentKind
    pub side : Side
    pub notional_usd : Decimal
    pub reference_price : Decimal
    pub max_slippage_bps : Decimal
    pub reduce_only : Bool
    pub client_order_id : String
    pub metadata : Dict (Value N)

  -- `OrderLeg.__post_init__`, which `dataclasses.replace` runs too
  unfoldable pub check_leg : OrderLeg → Result ContractError OrderLeg
  check_leg leg = do
    raise_if (at_most N leg.notional_usd (zero_d N)) notional_not_positive
    raise_if (at_most N leg.reference_price (zero_d N)) reference_not_positive
    raise_if (less leg.max_slippage_bps (zero_d N)) slippage_negative
    ok leg

  -- `OrderLeg.quantity`
  abbrev pub quantity : OrderLeg → Decimal
  quantity leg = div leg.notional_usd leg.reference_price

  -- `OrderLeg.scaled`
  unfoldable pub scaled_leg : Decimal → OrderLeg → Result ContractError OrderLeg
  unfolding check_leg
  scaled_leg factor leg = do
    raise_if (at_most N factor (zero_d N)) scale_not_positive
    check_leg (record leg { notional_usd = mul leg.notional_usd factor })

  pub record TradePlan : Type 0 where
    pub strategy : SignalKind
    pub symbol : String
    pub legs : List OrderLeg
    pub expected_edge_bps : Decimal
    pub confidence : Float
    pub reason : String
    pub created_at : ℤ
    pub plan_id : String
    pub context : Dict (Value N)

  abbrev is_empty : List OrderLeg → Bool
  is_empty [] = true
  is_empty (_ ∷ _) = false

  -- `TradePlan.__post_init__`
  unfoldable pub check_plan : TradePlan → Result ContractError TradePlan
  check_plan plan = do
    raise_if (is_empty plan.legs) no_legs
    raise_if
        (not (
          float_at_most N (float 0 1) plan.confidence
          && float_at_most N plan.confidence (float 1 1)))
        confidence_out_of_range
    ok plan

  -- `tuple(f(leg) for leg in legs)`, where `f` may raise
  unfoldable pub each_leg :
      (OrderLeg → Result ContractError OrderLeg)
      → List OrderLeg
      → Result ContractError (List OrderLeg)
  each_leg f [] = ok []
  each_leg f (leg ∷ legs) = do leg' ← f leg; legs' ← each_leg f legs; ok (leg' ∷ legs')

  -- `TradePlan.gross_notional_usd`
  abbrev pub gross_notional_usd : TradePlan → Decimal
  gross_notional_usd plan = sum_d N (map (λ leg. leg.notional_usd) plan.legs)

  -- `TradePlan.max_leg_notional_usd`; `max` of no legs raises
  unfoldable pub max_leg_notional_usd : List OrderLeg → Result ContractError Decimal
  max_leg_notional_usd [] = err no_legs
  max_leg_notional_usd (leg ∷ legs) =
      ok (largest N leg.notional_usd (map (λ l. l.notional_usd) legs))

  -- `TradePlan.scaled`
  unfoldable pub scaled_plan : Decimal → TradePlan → Result ContractError TradePlan
  unfolding each_leg scaled_leg check_plan
  scaled_plan factor plan = do
    legs ← each_leg (scaled_leg factor) plan.legs
    check_plan (record plan { legs = legs })

  abbrev pub capped_leg : Decimal → OrderLeg → OrderLeg
  capped_leg cap leg = record leg { max_slippage_bps = min_d N leg.max_slippage_bps cap }

  -- `TradePlan.with_slippage_cap`
  unfoldable pub with_slippage_cap : Decimal → TradePlan → Result ContractError TradePlan
  unfolding each_leg check_leg check_plan
  with_slippage_cap cap plan = do
    legs ← each_leg (λ leg. check_leg (capped_leg cap leg)) plan.legs
    check_plan (record plan { legs = legs })

  pub record StrategyDecision : Type 0 where
    pub event : MarketEvent N
    pub features : FeatureSnapshot N
    pub plan : TradePlan

  pub record PortfolioSnapshot : Type 0 where
    pub equity_usd : Decimal
    pub available_balance_usd : Decimal
    pub gross_exposure_usd : Decimal
    pub daily_pnl_usd : Decimal
    pub open_plan_count : ℕ

  pub record ApprovedTradePlan : Type 0 where
    pub plan : TradePlan
    pub approved_at : ℤ
    pub risk_checks : List String
    pub portfolio : PortfolioSnapshot

  pub record ExecutionResult : Type 0 where
    pub plan_id : String
    pub status : ExecutionStatus
    pub fills : List (Fill N)
    pub compensated_fills : List (Fill N)
    pub error : Option String
