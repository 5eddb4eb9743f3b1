-- ===== src/Performance/Counts.antt =====
-- What the counts of a report count.
use llm_arbitrage_system.Base.{
  ℕ, ◌+◌, ◌≤◌, inl, inr, String, ◌≡◌, refl, Option, List, [], ◌∷◌, str_eq, arith, subst,
}
use llm_arbitrage_system.Base.Tests.{if◌then◌else◌, Bool-cases}
use llm_arbitrage_system.Base.Lists.{length}
use llm_arbitrage_system.Base.Result.{ok, returned}
use llm_arbitrage_system.Base.Int.{ℤ}
use llm_arbitrage_system.Domain.Numbers.{Numbers}
use llm_arbitrage_system.Domain.Contracts.{ExecutionStatus, status_code, Dict, get, Fill}
use llm_arbitrage_system.Domain.Plans.{ApprovedTradePlan, ExecutionResult}
use llm_arbitrage_system.Simulation.Dicts.{contains}
use llm_arbitrage_system.Performance.{
  Statistics, ResearchPerformanceMetrics, ResearchPerformanceReport, Totals, index_from, add_fills,
  add_cost, match_result, add_results, all_fills, status_count, metrics_of, no_totals, risk_metrics,
  build_performance_report,
}
use llm_arbitrage_system.Performance.Index.{has_id, index_from-IsDistinct}

status_code-bound : (s : ExecutionStatus) → status_code s ≤ 5
status_code-bound s = ground arith

module _ (N : Numbers) where
  abbrev pub fills_in : List (ExecutionResult N) → ℕ
  fills_in [] = 0
  fills_in (r ∷ rs) = length (all_fills N r) + fills_in rs

  statuses_add_up :
      (rs : List (ExecutionResult N))
      → let count = status_count N rs in
        count ExecutionStatus.filled
          + count ExecutionStatus.compensated
          + count ExecutionStatus.failed
          + count ExecutionStatus.partially_filled
          + count ExecutionStatus.rejected
          + count ExecutionStatus.skipped
        ≡ length rs
  statuses_add_up [] = refl
  statuses_add_up (r ∷ rs) = ground (arith, statuses_add_up rs, status_code-bound r.status)

  add_fills-counts :
      (fills : List (Fill N)) (t : Totals N)
      → ((add_fills N fills t).fill_count ≡ length fills + t.fill_count)
        × ((add_fills N fills t).unmatched ≡ t.unmatched)
  add_fills-counts [] t = (omega arith, refl)
  add_fills-counts (f ∷ fills) t =
      let rest = add_fills-counts fills _ in (omega (arith, rest.0), rest.1)

  -- The results whose plan is not among the approved ones.
  abbrev pub unknown : List (ApprovedTradePlan N) → List (ExecutionResult N) → ℕ
  unknown approved [] = 0
  unknown approved (r ∷ rs) = (if has_id N r.plan_id approved then 0 else 1) + unknown approved rs

  add_cost-counts :
      (a : ApprovedTradePlan N) (r : ExecutionResult N) (fills : List (Fill N)) (t : Totals N)
      → ((add_cost N a r fills t).fill_count ≡ t.fill_count)
        × ((add_cost N a r fills t).unmatched ≡ t.unmatched)
  add_cost-counts a r [] t = (refl, refl)
  add_cost-counts a r (_ ∷ _) t = (refl, refl)

  match_result-counts :
      (index : Dict (ApprovedTradePlan N)) (r : ExecutionResult N) (t : Totals N)
      → let t' = match_result N (get r.plan_id index) r t in
        (t'.fill_count ≡ t.fill_count)
        × (t'.unmatched ≡ (if contains r.plan_id index then 0 else 1) + t.unmatched)
  match_result-counts [] r t = (refl, omega arith)
  match_result-counts ((k, a) ∷ index) r t = elim (Bool-cases (str_eq k r.plan_id)) [
    | inl found ↦
        let (fills, unmatched) = add_cost-counts a r (all_fills N r) t in
        rw found (fills, omega (arith, unmatched))
    | inr other ↦ rw other (match_result-counts index r t)
  ]

  add_results-counts :
      (index : Dict (ApprovedTradePlan N)) (approved : List (ApprovedTradePlan N))
      (rs : List (ExecutionResult N)) (t : Totals N)
      → ((id : String) → contains id index ≡ has_id N id approved)
      → ((add_results N index rs t).fill_count ≡ fills_in rs + t.fill_count)
        × ((add_results N index rs t).unmatched ≡ unknown approved rs + t.unmatched)
  unfolding add_results
  add_results-counts index approved [] t has = (omega arith, omega arith)
  add_results-counts index approved (r ∷ rs) t has =
      let (fills, unmatched) = add_fills-counts (all_fills N r) t in
      let (fills', unmatched') = match_result-counts index r (add_fills N (all_fills N r) t) in
      let (fills'', unmatched'') =
        add_results-counts index approved rs
          (match_result N (get r.plan_id index) r (add_fills N (all_fills N r) t)) has in
      let known = rw (has r.plan_id) at unmatched' in (omega arith, omega arith)

  -- What the counts of metrics count.
  abbrev pub Counted :
      List (ApprovedTradePlan N) → List (ExecutionResult N) → ResearchPerformanceMetrics N → Type 0
  Counted approved results m =
      (m.filled_plan_count + m.compensated_plan_count + m.failed_plan_count
          + m.partially_filled_plan_count + m.rejected_plan_count + m.skipped_plan_count
        ≡ length results)
      × (m.fill_count ≡ fills_in results)
      × (m.unmatched_result_count ≡ unknown approved results)

  -- A report that is built counts every result under exactly one status, every fill and compensating
  -- fill of every result, and as unmatched exactly the results whose plan id no approved plan has.
  pub build_performance_report-counts :
      (stats : Statistics N) (approved : List (ApprovedTradePlan N))
      (results : List (ExecutionResult N)) (pnl : List N.Decimal) (equity : Option N.Decimal)
      (periods : Option ℤ) (report : ResearchPerformanceReport N)
      → build_performance_report N stats approved results pnl equity periods ≡ ok report
      → Counted approved results report.metrics
  unfolding build_performance_report metrics_of
  build_performance_report-counts stats approved results pnl equity periods report h =
      let (index, one, h₁) = returned _ report (index_from N [] approved) h in
      let (risk, two, h₂) = returned _ report (risk_metrics N stats pnl equity periods) h₁ in
      let (_, _, has) = index_from-IsDistinct N [] index approved one in
      let (fills, unmatched) = add_results-counts index approved results (no_totals N) has in
      let made : metrics_of N approved results (add_results N index results (no_totals N)) risk.0
            risk.1.0
          ≡ report.metrics =
        cc in
      subst (Counted approved results) made
        (statuses_add_up results, omega (arith, fills), omega (arith, unmatched))
