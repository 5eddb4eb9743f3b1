-- ===== src/Performance/Tests.antt =====
-- A report on one approved plan.
use llm_arbitrage_system.Base.{String, ◌≡◌, refl, ◌↔◌, none, List, [], ◌∷◌}
use llm_arbitrage_system.Base.Result.{ok}
use llm_arbitrage_system.Base.Int.{pos}
use llm_arbitrage_system.Domain.Whole.{whole}
use llm_arbitrage_system.Domain.Contracts.{ExecutionStatus}
use llm_arbitrage_system.Domain.Plans.{ExecutionResult}
use llm_arbitrage_system.Simulation.Samples.{approved}
use llm_arbitrage_system.Performance.{
  Statistics, ResearchPerformanceReport, metrics_of, add_results, no_totals,
  build_performance_report, replay_estimate, cash_flow_is_no_profit, drawdown_omitted,
  alpha_decay_omitted, index_from, risk_metrics,
}
use llm_arbitrage_system.Performance.Index.{IsDistinct, build_performance_report-IsDistinct}
use llm_arbitrage_system.Performance.Counts.{Counted, build_performance_report-counts}

abbrev stats : Statistics whole
stats = record { fmean = λ returns. pos 0; pstdev = λ returns. pos 1; sqrt = λ n. pos 1 }

abbrev result : String → ExecutionResult whole
result id = record {
  plan_id = id;
  status = ExecutionStatus.filled;
  fills = [];
  compensated_fills = [];
  error = none;
}

abbrev results : List (ExecutionResult whole)
results = result "p1" ∷ result "p9" ∷ []

abbrev report : ResearchPerformanceReport whole
report = record {
  metrics =
      metrics_of whole (approved ∷ []) results
        (add_results whole (("p1", approved) ∷ []) results (no_totals whole)) none none;
  assumptions =
      replay_estimate ∷ cash_flow_is_no_profit ∷ drawdown_omitted ∷ alpha_decay_omitted ∷ [];
}

one_report : build_performance_report whole stats (approved ∷ []) results [] none none ≡ ok report
unfolding build_performance_report index_from risk_metrics
one_report = refl

build_performance_report-counts_example : Counted whole (approved ∷ []) results report.metrics
build_performance_report-counts_example =
    build_performance_report-counts whole stats (approved ∷ []) results [] none none report
      one_report

build_performance_report-IsDistinct_example :
    ((r : ResearchPerformanceReport whole) × (build_performance_report whole stats
          (approved ∷ [])
          results
          []
          none
          none
        ≡ ok r))
    ↔ IsDistinct whole (approved ∷ [])
build_performance_report-IsDistinct_example =
    build_performance_report-IsDistinct whole stats (approved ∷ []) results none none
