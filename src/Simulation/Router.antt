-- ===== src/Simulation/Router.antt =====
-- simulation/strategy_router.py: `PaperStrategyRouter`. The identifiers that `uuid4` gives a new plan
-- and its legs are arguments.
use Prim.Native.String.{◌++◌ as str_append}
use llm_arbitrage_system.Base.{
  String, Bool, true, false, not, ◌&&◌, ◌||◌, Option, none, some, List, [], ◌∷◌, str_eq,
}
use llm_arbitrage_system.Base.Tests.{if◌then◌else◌}
use llm_arbitrage_system.Base.Result.{Result, ok, err, raise_if, or_raise, ◌>>=◌, ◌>>◌}
use llm_arbitrage_system.Domain.Numbers.{
  Numbers, zero_d, at_most, abs_d, abs_f, min_f, float_at_most,
}
use llm_arbitrage_system.Domain.Contracts.{
  Venue, InstrumentKind, Side, SignalKind, Value, flag, Dict, get, MarketEvent, FeatureSnapshot,
  ContractError, not_a_number, funding_apy_pct,
}
use llm_arbitrage_system.Domain.Plans.{OrderLeg, TradePlan, check_leg, check_plan, each_leg}
use llm_arbitrage_system.Simulation.Approval.Gate.{str_of}
pub mod Scenarios
pub mod Keys
mod Tests

-- What `uuid4` returns for a plan and for its legs.
pub record Ids : Type 0 where
  pub plan_id : String
  pub leg_id : String
  pub hedge_id : String

pub data ThresholdError : Type 0 where
  notional_not_positive cost_negative funding_not_positive zscore_not_positive : ThresholdError
  efficiency_out_of_range lead_lag_not_positive : ThresholdError

-- `event.instrument in {InstrumentKind.PERP, InstrumentKind.RWA_PERP}`
abbrev pub is_perpetual : InstrumentKind → Bool
is_perpetual InstrumentKind.perp = true
is_perpetual InstrumentKind.rwa_perp = true
is_perpetual _ = false

-- `event.instrument is InstrumentKind.RWA_PERP`
abbrev pub is_rwa : InstrumentKind → Bool
is_rwa InstrumentKind.rwa_perp = true
is_rwa _ = false

-- `market_open is False`
abbrev pub is_closed : Option Bool → Bool
is_closed (some false) = true
is_closed _ = false

module _ (N : Numbers) where
  open N use {
    Decimal, Float, decimal, add, sub, mul, div, less, to_float, from_float, float, float_mul,
    float_div, float_less, show, parse,
  }

  pub record ResearchThresholds : Type 0 where
    pub scenario_notional_usd : Decimal
    pub estimated_round_trip_cost_bps : Decimal
    pub funding_entry_apy_pct : Decimal
    pub funding_holding_hours : Decimal
    pub crowd_entry_zscore : Float
    pub crowd_efficiency_ratio_maximum : Float
    pub crowd_requires_sentiment : Bool
    pub lead_lag_entry_premium_bps : Decimal

  -- `ResearchThresholds.__post_init__`
  unfoldable pub check_thresholds : ResearchThresholds → Result ThresholdError ResearchThresholds
  check_thresholds t = do
    raise_if (at_most N t.scenario_notional_usd (zero_d N)) notional_not_positive
    raise_if (less t.estimated_round_trip_cost_bps (zero_d N)) cost_negative
    raise_if
        (at_most N t.funding_entry_apy_pct (zero_d N)
          || at_most N t.funding_holding_hours (zero_d N))
        funding_not_positive
    raise_if (float_at_most N t.crowd_entry_zscore (float 0 1)) zscore_not_positive
    raise_if
        (not (
          float_at_most N (float 0 1) t.crowd_efficiency_ratio_maximum
          && float_at_most N t.crowd_efficiency_ratio_maximum (float 1 1)))
        efficiency_out_of_range
    raise_if (at_most N t.lead_lag_entry_premium_bps (zero_d N)) lead_lag_not_positive
    ok t

  -- A leg at the paper venue; the other fields have their defaults.
  abbrev pub paper_leg :
      String → String → InstrumentKind → Side → Decimal → Decimal → String → OrderLeg N
  paper_leg id symbol instrument side notional price role = record {
    venue = Venue.paper;
    symbol = symbol;
    instrument = instrument;
    side = side;
    notional_usd = notional;
    reference_price = price;
    max_slippage_bps = decimal 25;
    reduce_only = false;
    client_order_id = id;
    metadata = ("paper_role", Value.text role) ∷ [];
  }

  abbrev pub open_context : String → MarketEvent N → Dict (Value N) → Dict (Value N)
  open_context prefix event extra =
      ("simulation_only", flag true)
      ∷ ("position_key", Value.text (str_append prefix event.symbol))
      ∷ ("transition", Value.text "open")
      ∷ extra

  -- The constructors of a plan's legs and of the plan, with their checks.
  unfoldable pub built : TradePlan N → Result ContractError (Option (TradePlan N))
  unfolding each_leg check_leg check_plan
  built plan = do
    legs ← each_leg N (check_leg N) plan.legs
    checked ← check_plan N (record plan { legs = legs })
    ok (some checked)

  -- `isinstance(hedge_symbol, str)` and not empty
  abbrev pub hedge_symbol : Option (Value N) → Option String
  hedge_symbol (some (Value.text t)) = if str_eq t "" then none else some t
  hedge_symbol _ = none

  abbrev pub or_default : Option (Value N) → Value N → Value N
  or_default none default = default
  or_default (some value) _ = value

  -- `Decimal(str(event.metadata.get("paper_hedge_price", event.price)))`
  unfoldable pub hedge_price : MarketEvent N → Result ContractError Decimal
  unfolding str_of
  hedge_price event =
      or_raise
        (parse (
          str_of N
            (or_default (get "paper_hedge_price" event.metadata) (Value.number event.price))))
        not_a_number

  -- The plan of `_funding`.
  abbrev pub funding_plan :
      ResearchThresholds → Ids → MarketEvent N → String → Decimal → TradePlan N
  funding_plan t ids event hedge price = record {
    strategy = SignalKind.funding_arbitrage;
    symbol = event.symbol;
    legs =
        paper_leg ids.leg_id (str_append event.symbol ":PERP") event.instrument Side.sell
          t.scenario_notional_usd event.price "carry"
        ∷ paper_leg ids.hedge_id hedge InstrumentKind.spot Side.buy
            (mul (div t.scenario_notional_usd event.price) price) price "hedge"
        ∷ [];
    expected_edge_bps =
        sub (mul (mul event.funding_rate_hourly t.funding_holding_hours) (decimal 10000))
          t.estimated_round_trip_cost_bps;
    confidence =
        min_f N (float 1 1) (to_float (div (funding_apy_pct N event) t.funding_entry_apy_pct));
    reason = "offline funding-carry scenario crossed its research threshold";
    created_at = event.timestamp;
    plan_id = ids.plan_id;
    context = open_context "funding:" event [];
  }

  -- `_funding`
  unfoldable pub funding :
      ResearchThresholds → Ids → MarketEvent N → Result ContractError (Option (TradePlan N))
  unfolding funding_apy_pct hedge_price built
  funding t ids event =
      if not (is_perpetual event.instrument)
        || less (funding_apy_pct N event) t.funding_entry_apy_pct
      then ok none
      else elim (hedge_symbol (get "paper_hedge_symbol" event.metadata)) [
        | none ↦ ok none
        | some hedge ↦ hedge_price event >>= λ price. built (funding_plan t ids event hedge price)
      ]

  -- whether `_crowding` returns none for want of a sentiment against the deviation
  abbrev pub lacks_sentiment : Float → Option Float → Bool
  lacks_sentiment zscore none = true
  lacks_sentiment zscore (some score) =
      (float_less (float 0 1) zscore && float_at_most N score (float 0 1))
      || (float_less zscore (float 0 1) && float_at_most N (float 0 1) score)

  -- sell above, buy below
  abbrev pub against : Bool → Side
  against true = Side.sell
  against false = Side.buy

  -- The plan of `_crowding`.
  abbrev pub crowding_plan :
      ResearchThresholds → Ids → MarketEvent N → FeatureSnapshot N → TradePlan N
  crowding_plan t ids event features = record {
    strategy = SignalKind.overcrowd_reversion;
    symbol = event.symbol;
    legs =
        paper_leg ids.leg_id event.symbol event.instrument
          (against (float_less (float 0 1) features.zscore)) t.scenario_notional_usd event.price
          "reversion_probe"
        ∷ [];
    expected_edge_bps =
        sub (from_float (float_mul (abs_f N features.zscore) (float 10 1)))
          t.estimated_round_trip_cost_bps;
    confidence = min_f N (float 1 1) (float_div (abs_f N features.zscore) (float 4 1));
    reason = "offline crowding scenario combined extreme deviation with low efficiency";
    created_at = event.timestamp;
    plan_id = ids.plan_id;
    context = open_context "crowding:" event [];
  }

  -- `_crowding`
  unfoldable pub crowding :
      ResearchThresholds
      → Ids
      → MarketEvent N
      → FeatureSnapshot N
      → Result ContractError (Option (TradePlan N))
  unfolding built
  crowding t ids event features =
      if float_less (abs_f N features.zscore) t.crowd_entry_zscore
        || (float_less t.crowd_efficiency_ratio_maximum features.efficiency_ratio
            || (t.crowd_requires_sentiment
                && lacks_sentiment features.zscore event.sentiment_score))
      then ok none
      else built (crowding_plan t ids event features)

  -- The plan of `_lead_lag`.
  abbrev pub lead_lag_plan : ResearchThresholds → Ids → MarketEvent N → Decimal → TradePlan N
  lead_lag_plan t ids event premium_bps = record {
    strategy = SignalKind.lead_lag_rwa;
    symbol = event.symbol;
    legs =
        paper_leg ids.leg_id event.symbol event.instrument (against (less (zero_d N) premium_bps))
          t.scenario_notional_usd event.price "convergence_probe"
        ∷ [];
    expected_edge_bps = sub (abs_d N premium_bps) t.estimated_round_trip_cost_bps;
    confidence = min_f N (float 1 1) (to_float (div (abs_d N premium_bps) (decimal 500)));
    reason = "offline lead-lag scenario observed a closed-reference deviation";
    created_at = event.timestamp;
    plan_id = ids.plan_id;
    context = open_context "lead-lag:" event (("premium_bps", Value.text (show premium_bps)) ∷ []);
  }

  -- `premium_bps` in `_lead_lag`
  abbrev pub premium : MarketEvent N → Decimal → Decimal
  premium event reference = mul (div (sub event.price reference) reference) (decimal 10000)

  -- `_lead_lag`
  unfoldable pub lead_lag :
      ResearchThresholds → Ids → MarketEvent N → Result ContractError (Option (TradePlan N))
  unfolding built
  lead_lag t ids event =
      if not (is_rwa event.instrument) || not (is_closed event.reference_market_open)
      then ok none
      else elim event.reference_price [
        | none ↦ ok none
        | some reference ↦
            if less (abs_d N (premium event reference)) t.lead_lag_entry_premium_bps
            then ok none
            else built (lead_lag_plan t ids event (premium event reference))
      ]

  -- `result if result is not None`, else the next builder
  abbrev pub or_else :
      Option (TradePlan N)
      → Result ContractError (Option (TradePlan N))
      → Result ContractError (Option (TradePlan N))
  or_else (some plan) next = ok (some plan)
  or_else none next = next

  -- `PaperStrategyRouter.plan`
  unfoldable pub route :
      ResearchThresholds
      → Ids
      → MarketEvent N
      → FeatureSnapshot N
      → Result ContractError (Option (TradePlan N))
  unfolding funding crowding lead_lag
  route t ids event features = do
    first ← funding t ids event
    second ← or_else first (crowding t ids event features)
    or_else second (lead_lag t ids event)
