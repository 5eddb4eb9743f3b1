-- ===== src/Simulation/Samples.antt =====
-- Plans, limits and approvers on whole numbers, for the tests.
use llm_arbitrage_system.Base.{String, false, none, List, [], ◌∷◌}
use llm_arbitrage_system.Base.Int.{pos}
use llm_arbitrage_system.Domain.Contracts.{
  Venue, InstrumentKind, Side, SignalKind, Value, MarketEvent, FeatureSnapshot,
}
use llm_arbitrage_system.Domain.Plans.{OrderLeg, TradePlan, StrategyDecision, ApprovedTradePlan}
use llm_arbitrage_system.Domain.Whole.{whole}
use llm_arbitrage_system.Simulation.Approval.Gate.{PaperApprovalLimits, Approver}
use llm_arbitrage_system.Simulation.Executor.{Costs}

abbrev pub event : MarketEvent whole
event = record {
  venue = Venue.perp;
  symbol = "BTC";
  instrument = InstrumentKind.perp;
  price = pos 10;
  timestamp = pos 1000000;
  bid = none;
  ask = none;
  high = none;
  low = none;
  volume_24h = pos 0;
  funding_rate_hourly = pos 0;
  sentiment_score = none;
  reference_price = none;
  reference_market_open = none;
  metadata = [];
}

abbrev pub features : FeatureSnapshot whole
features = record {
  symbol = "BTC";
  timestamp = pos 1000000;
  efficiency_ratio = pos 0;
  kama = pos 10;
  zscore = pos 3;
  atr_pct = pos 0;
  filtered_price = pos 10;
  observation_count = 20;
}

abbrev pub leg : Side → String → OrderLeg whole
leg side symbol = record {
  venue = Venue.paper;
  symbol = symbol;
  instrument = InstrumentKind.perp;
  side = side;
  notional_usd = pos 100;
  reference_price = pos 10;
  max_slippage_bps = pos 80;
  reduce_only = false;
  client_order_id = symbol;
  metadata = [];
}

abbrev pub pair : List (OrderLeg whole)
pair = leg Side.sell "BTC:PERP" ∷ leg Side.buy "BTC" ∷ []

abbrev pub plan : TradePlan whole
plan = record {
  strategy = SignalKind.funding_arbitrage;
  symbol = "BTC";
  legs = pair;
  expected_edge_bps = pos 5;
  confidence = pos 1;
  reason = "test";
  created_at = pos 1000000;
  plan_id = "p1";
  context = ("position_key", Value.text "funding:BTC") ∷ [];
}

abbrev pub decision : StrategyDecision whole
decision = record { event = event; features = features; plan = plan }

abbrev pub limits : PaperApprovalLimits whole
limits = record {
  maximum_event_age_seconds = pos 5;
  minimum_edge_bps = pos 1;
  maximum_leg_notional_usd = pos 1000;
  maximum_gross_exposure_usd = pos 500;
  maximum_leg_imbalance_pct = pos 0;
  maximum_slippage_bps = pos 50;
}

abbrev pub idle : Approver whole
idle = record { reservations = []; open_exposure = []; halt_reason = none }

abbrev pub approved : ApprovedTradePlan whole
approved = record {
  plan = plan;
  approved_at = pos 1000000;
  risk_checks = [];
  portfolio = record {
    equity_usd = pos 500;
    available_balance_usd = pos 500;
    gross_exposure_usd = pos 0;
    daily_pnl_usd = pos 0;
    open_plan_count = 0;
  };
}

-- the second leg fails
abbrev pub second_fails : Costs whole
second_fails = record { slippage_bps = pos 0; fee_bps = pos 0; fail_leg_indexes = 1 ∷ [] }
