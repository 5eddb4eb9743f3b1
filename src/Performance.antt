-- ===== src/Performance.antt =====
-- reporting/performance.py: `build_performance_report` and its helpers. What the `statistics` and
-- `math` modules compute is a parameter.
use Prim.Native.String.{len, slice}
use text.Mathlib.Text.{starts_with}
use llm_arbitrage_system.Base.{
  ℕ, suc, ◌+◌, String, Bool, true, false, ◌&&◌, Option, none, some, List, [], ◌∷◌, ◌++◌, map,
}
use llm_arbitrage_system.Base.Tests.{if◌then◌else◌, ◌==◌, leb}
use llm_arbitrage_system.Base.Lists.{length, count_if}
use llm_arbitrage_system.Base.Result.{Result, ok, err, raise_if, ◌>>=◌, ◌>>◌}
use llm_arbitrage_system.Base.Int.{ℤ, pos, ltb_ℤ}
use llm_arbitrage_system.Domain.Numbers.{
  Numbers, zero_d, at_most, max_d, sum_d, largest, float_at_most,
}
use llm_arbitrage_system.Domain.Contracts.{
  Side, ExecutionStatus, is_status, Dict, get, Fill, fill_notional,
}
use llm_arbitrage_system.Domain.Plans.{
  OrderLeg, TradePlan, ApprovedTradePlan, ExecutionResult, gross_notional_usd,
}
use llm_arbitrage_system.Simulation.Dicts.{assign, contains}
pub mod Counts
pub mod Index
mod Tests

pub data ReportError : Type 0 where
  duplicate_plan_id : String → ReportError
  equity_required periods_not_positive : ReportError

-- The sentences that the report ends with.
pub data Assumption : Type 0 where
  replay_estimate cash_flow_is_no_profit sharpe_omitted drawdown_omitted : Assumption
  alpha_decay_omitted : Assumption

-- `text.removeprefix("reverse-")`
abbrev pub without_reverse : String → String
without_reverse t = if starts_with t "reverse-" then slice t 8 (len t) else t

module _ (N : Numbers) where
  open N use {
    Decimal, Float, decimal, add, sub, mul, div, neg, less, to_float, float, float_mul, float_div,
  }

  -- `fmean`, `pstdev` and `sqrt`.
  pub record Statistics : Type 0 where
    pub fmean : List Float → Float
    pub pstdev : List Float → Float
    pub sqrt : ℤ → Float

  pub record ResearchPerformanceMetrics : Type 0 where
    pub approved_plan_count : ℕ
    pub execution_result_count : ℕ
    pub filled_plan_count : ℕ
    pub compensated_plan_count : ℕ
    pub failed_plan_count : ℕ
    pub partially_filled_plan_count : ℕ
    pub rejected_plan_count : ℕ
    pub skipped_plan_count : ℕ
    pub unmatched_result_count : ℕ
    pub fill_count : ℕ
    pub gross_turnover_usd : Decimal
    pub fees_usd : Decimal
    pub net_settlement_cash_flow_usd : Decimal
    pub fill_success_rate : Float
    pub compensation_rate : Float
    pub failure_rate : Float
    pub average_expected_edge_bps : Option Decimal
    pub average_execution_cost_bps : Option Decimal
    pub maximum_execution_cost_bps : Option Decimal
    pub average_edge_after_cost_bps : Option Decimal
    pub maximum_drawdown_pct : Option Float
    pub annualized_sharpe_ratio : Option Float
    pub alpha_decay_bps : Option Decimal

  pub record ResearchPerformanceReport : Type 0 where
    pub metrics : ResearchPerformanceMetrics
    pub assumptions : List Assumption

  -- the loop of `_approved_plan_index`, with the dictionary so far
  unfoldable pub index_from :
      Dict (ApprovedTradePlan N)
      → List (ApprovedTradePlan N)
      → Result ReportError (Dict (ApprovedTradePlan N))
  index_from index [] = ok index
  index_from index (approved ∷ rest) =
      let id = approved.plan.plan_id in
      let next = index_from (assign id approved index) rest in
      if contains id index then err (duplicate_plan_id id) else next

  -- `{leg.client_order_id: leg for leg in plan.legs}`
  abbrev pub legs_by_id : Dict (OrderLeg N) → List (OrderLeg N) → Dict (OrderLeg N)
  legs_by_id found [] = found
  legs_by_id found (leg ∷ legs) = legs_by_id (assign leg.client_order_id leg found) legs

  -- how a fill of a leg changes `impact_usd` in `_execution_cost_bps`
  abbrev pub impact_of : Fill N → OrderLeg N → Decimal → Decimal
  impact_of fill leg impact =
      let moved =
        mul (div (sub fill.price leg.reference_price) leg.reference_price) leg.notional_usd in
      elim fill.side [ Side.buy ↦ add impact moved | Side.sell ↦ sub impact moved ]

  -- the loop of `_execution_cost_bps`: the impact and the fees
  abbrev pub costs_of : Dict (OrderLeg N) → List (Fill N) → Decimal × Decimal → Decimal × Decimal
  costs_of legs [] sums = sums
  costs_of legs (fill ∷ fills) (impact, fees) = costs_of legs fills (
    (elim (get (without_reverse fill.client_order_id) legs) [
      | none ↦ impact
      | some leg ↦ impact_of fill leg impact
    ]),
    add fees fill.fee_usd,
  )

  abbrev pub all_fills : ExecutionResult N → List (Fill N)
  all_fills result = result.fills ++ result.compensated_fills

  -- `_execution_cost_bps`
  unfoldable pub execution_cost_bps : ApprovedTradePlan N → ExecutionResult N → Decimal
  execution_cost_bps approved result =
      let plan = approved.plan in
      let sums = costs_of (legs_by_id [] plan.legs) (all_fills result) (zero_d N, zero_d N) in
      mul (div (add sums.0 sums.1) (gross_notional_usd N plan)) (decimal 10000)

  -- `_signed_cash_flow`
  abbrev pub signed_cash_flow : Fill N → Decimal
  signed_cash_flow fill = elim fill.side [
    | Side.sell ↦ fill_notional N fill
    | Side.buy ↦ neg (fill_notional N fill)
  ]

  -- What the loop over the results accumulates.
  pub record Totals : Type 0 where
    pub gross_turnover : Decimal
    pub fees : Decimal
    pub net_cash_flow : Decimal
    pub fill_count : ℕ
    pub execution_costs : List Decimal
    pub edge_after_costs : List Decimal
    pub unmatched : ℕ

  abbrev pub no_totals : Totals
  no_totals = record {
    gross_turnover = zero_d N;
    fees = zero_d N;
    net_cash_flow = zero_d N;
    fill_count = 0;
    execution_costs = [];
    edge_after_costs = [];
    unmatched = 0;
  }

  abbrev pub add_fills : List (Fill N) → Totals → Totals
  add_fills [] totals = totals
  add_fills (fill ∷ fills) totals = add_fills fills (record totals {
    fill_count = suc totals.fill_count;
    gross_turnover = add totals.gross_turnover (fill_notional N fill);
    fees = add totals.fees fill.fee_usd;
    net_cash_flow = add totals.net_cash_flow (sub (signed_cash_flow fill) fill.fee_usd);
  })

  abbrev pub add_cost : ApprovedTradePlan N → ExecutionResult N → List (Fill N) → Totals → Totals
  add_cost approved result [] totals = totals
  add_cost approved result (_ ∷ _) totals =
      let cost = execution_cost_bps approved result in
      record totals {
        execution_costs = totals.execution_costs ++ cost ∷ [];
        edge_after_costs = totals.edge_after_costs ++ sub approved.plan.expected_edge_bps cost ∷ [];
      }

  abbrev pub match_result : Option (ApprovedTradePlan N) → ExecutionResult N → Totals → Totals
  match_result none result totals = record totals { unmatched = suc totals.unmatched }
  match_result (some approved) result totals = add_cost approved result (all_fills result) totals

  -- the loop over the results
  unfoldable pub add_results :
      Dict (ApprovedTradePlan N) → List (ExecutionResult N) → Totals → Totals
  add_results index [] totals = totals
  add_results index (result ∷ results) totals =
      add_results index results
        (match_result (get result.plan_id index) result (add_fills (all_fills result) totals))

  -- `_status_count`
  abbrev pub status_count : List (ExecutionResult N) → ExecutionStatus → ℕ
  status_count results status = count_if (λ result. is_status result.status status) results

  -- `_rate`
  abbrev pub rate : ℕ → ℕ → Float
  rate numerator denominator = if denominator == 0 then float 0 1 else float numerator denominator

  -- `_average_decimal`
  abbrev pub average_decimal : List Decimal → Option Decimal
  average_decimal [] = none
  average_decimal (x ∷ xs) = some (div (sum_d N (x ∷ xs)) (decimal (length (x ∷ xs))))

  -- `max(values, default=None)`
  abbrev pub maximum : List Decimal → Option Decimal
  maximum [] = none
  maximum (x ∷ xs) = some (largest N x xs)

  -- the loop of `_maximum_drawdown_pct`
  abbrev pub drawdown : List Decimal → Decimal → Decimal → Decimal → Decimal
  drawdown [] equity peak worst = worst
  drawdown (pnl ∷ series) equity peak worst =
      let equity' = add equity pnl in
      let peak' = if less peak equity' then equity' else peak in
      drawdown series equity' peak'
        (if less (zero_d N) peak' then max_d N worst (div (sub peak' equity') peak') else worst)

  -- `_maximum_drawdown_pct`
  unfoldable pub maximum_drawdown_pct : List Decimal → Decimal → Float
  maximum_drawdown_pct series initial =
      to_float (mul (drawdown series initial initial (zero_d N)) (decimal 100))

  -- the loop of `_annualized_sharpe`: none where the equity is used up
  abbrev pub returns_of : List Decimal → Decimal → Option (List Float)
  returns_of [] equity = some []
  returns_of (pnl ∷ series) equity =
      let rest = returns_of series (add equity pnl) in
      if at_most N equity (zero_d N)
      then none
      else elim rest [ none ↦ none | some returns ↦ some (to_float (div pnl equity) ∷ returns) ]

  -- `_annualized_sharpe`
  unfoldable pub annualized_sharpe : Statistics → List Decimal → Decimal → ℤ → Option Float
  annualized_sharpe stats series initial periods = elim (returns_of series initial) [
    | none ↦ none
    | some returns ↦
        let deviation = stats.pstdev returns in
        if leb 2 (length returns)
        then (if float_at_most N deviation (float 0 1) && float_at_most N (float 0 1) deviation
            then none
            else some (float_mul (float_div (stats.fmean returns) deviation) (stats.sqrt periods)))
        else none
  ]

  -- `initial_equity_usd` where it is given and positive
  abbrev pub positive_equity : Option Decimal → Result ReportError Decimal
  positive_equity none = err equity_required
  positive_equity (some equity) =
      if at_most N equity (zero_d N) then err equity_required else ok equity

  -- the drawdown, the Sharpe ratio and the sentence on what is omitted
  unfoldable pub risk_metrics :
      Statistics
      → List Decimal
      → Option Decimal
      → Option ℤ
      → Result ReportError (Option Float × (Option Float × List Assumption))
  unfolding maximum_drawdown_pct annualized_sharpe
  risk_metrics stats [] equity periods = ok (none, (none, drawdown_omitted ∷ []))
  risk_metrics stats (x ∷ xs) equity none = do
    initial ← positive_equity equity
    ok (some (maximum_drawdown_pct (x ∷ xs) initial), (none, sharpe_omitted ∷ []))
  risk_metrics stats (x ∷ xs) equity (some periods) = do
    initial ← positive_equity equity
    raise_if (if ltb_ℤ (pos 0) periods then false else true) periods_not_positive
    ok (
      some (maximum_drawdown_pct (x ∷ xs) initial),
      (annualized_sharpe stats (x ∷ xs) initial periods, []),
    )

  -- the metrics of a report
  unfoldable pub metrics_of :
      List (ApprovedTradePlan N)
      → List (ExecutionResult N)
      → Totals
      → Option Float
      → Option Float
      → ResearchPerformanceMetrics
  metrics_of approved results totals maximum_drawdown sharpe_ratio =
      let count = status_count results in
      let filled = count ExecutionStatus.filled in
      let compensated = count ExecutionStatus.compensated in
      let failed = count ExecutionStatus.failed in
      let partial = count ExecutionStatus.partially_filled in
      let rejected = count ExecutionStatus.rejected in
      record {
        approved_plan_count = length approved;
        execution_result_count = length results;
        filled_plan_count = filled;
        compensated_plan_count = compensated;
        failed_plan_count = failed;
        partially_filled_plan_count = partial;
        rejected_plan_count = rejected;
        skipped_plan_count = count ExecutionStatus.skipped;
        unmatched_result_count = totals.unmatched;
        fill_count = totals.fill_count;
        gross_turnover_usd = totals.gross_turnover;
        fees_usd = totals.fees;
        net_settlement_cash_flow_usd = totals.net_cash_flow;
        fill_success_rate = rate filled (length results);
        compensation_rate = rate compensated (length results);
        failure_rate = rate (failed + partial + rejected) (length results);
        average_expected_edge_bps = average_decimal (map (λ a. a.plan.expected_edge_bps) approved);
        average_execution_cost_bps = average_decimal totals.execution_costs;
        maximum_execution_cost_bps = maximum totals.execution_costs;
        average_edge_after_cost_bps = average_decimal totals.edge_after_costs;
        maximum_drawdown_pct = maximum_drawdown;
        annualized_sharpe_ratio = sharpe_ratio;
        alpha_decay_bps = none;
      }

  -- `build_performance_report`
  unfoldable pub build_performance_report :
      Statistics
      → List (ApprovedTradePlan N)
      → List (ExecutionResult N)
      → List Decimal
      → Option Decimal
      → Option ℤ
      → Result ReportError ResearchPerformanceReport
  unfolding index_from add_results risk_metrics metrics_of
  build_performance_report stats approved results pnl_series initial_equity periods = do
    index ← index_from [] approved
    let totals = add_results index results no_totals
    (maximum_drawdown, (sharpe_ratio, omitted)) ←
        risk_metrics stats pnl_series initial_equity periods
    ok (record {
      metrics = metrics_of approved results totals maximum_drawdown sharpe_ratio;
      assumptions = replay_estimate ∷ cash_flow_is_no_profit ∷ omitted ++ alpha_decay_omitted ∷ [];
    })
