-- ===== src/Simulation/Router/Tests.antt =====
-- The router on an event that is far from its mean.
use llm_arbitrage_system.Base.{◌≡◌, refl, false, some}
use llm_arbitrage_system.Base.Result.{ok}
use llm_arbitrage_system.Base.Int.{pos, ◌+ℤ◌, ◌-ℤ◌}
use llm_arbitrage_system.Domain.Plans.{TradePlan}
use llm_arbitrage_system.Domain.Whole.{whole}
use llm_arbitrage_system.Simulation.Samples.{event, features}
use llm_arbitrage_system.Simulation.Router.{Ids, ResearchThresholds, crowding_plan, route}
use llm_arbitrage_system.Simulation.Approval.Gate.{position_key}
use llm_arbitrage_system.Simulation.Approval.Exclusive.{is_residual}
use llm_arbitrage_system.Simulation.Router.Keys.{route-names}
use llm_arbitrage_system.Simulation.Router.Scenarios.{Shown, route-Shown}

abbrev thresholds : ResearchThresholds whole
thresholds = record {
  scenario_notional_usd = pos 100;
  estimated_round_trip_cost_bps = pos 12;
  funding_entry_apy_pct = pos 50;
  funding_holding_hours = pos 24;
  crowd_entry_zscore = pos 2;
  crowd_efficiency_ratio_maximum = pos 0;
  crowd_requires_sentiment = false;
  lead_lag_entry_premium_bps = pos 150;
}

abbrev ids : Ids
ids = record { plan_id = "p2"; leg_id = "l1"; hedge_id = "l2" }

abbrev crowd : TradePlan whole
crowd = crowding_plan whole thresholds ids event features

reverts : route whole thresholds ids event features ≡ ok (some crowd)
unfolding route ◌+ℤ◌ ◌-ℤ◌
reverts = refl

route-Shown_example : Shown whole thresholds ids event features crowd
route-Shown_example = route-Shown whole thresholds ids event features crowd reverts

route-names_example : is_residual whole (position_key whole crowd) ≡ false
route-names_example = route-names whole thresholds ids event features crowd reverts
