-- ===== src/Performance/Index.antt =====
-- The index of approved plans by their ids, and when a report is refused.
use llm_arbitrage_system.Base.{
  String, ◌≡◌, refl, ap, ◌∙◌, inl, inr, ◌↔◌, Bool, false, ◌||◌, Option, List, [], ◌∷◌, str_eq,
  eq_iff, arith,
}
use llm_arbitrage_system.Base.Tests.{Bool-cases}
use llm_arbitrage_system.Base.Lists.{All}
use llm_arbitrage_system.Base.Result.{Result, ok, returned, ◌>>=◌}
use llm_arbitrage_system.Base.Int.{ℤ}
use llm_arbitrage_system.Domain.Numbers.{Numbers}
use llm_arbitrage_system.Domain.Contracts.{Dict}
use llm_arbitrage_system.Domain.Plans.{ApprovedTradePlan, ExecutionResult}
use llm_arbitrage_system.Simulation.Dicts.{assign, contains, contains-assign}
use llm_arbitrage_system.Performance.{
  Statistics, ResearchPerformanceReport, index_from, risk_metrics, build_performance_report,
}

continues :
    {E A B : Type 0} (call : Result E A) (value : A) (rest : A → Result E B)
    → call ≡ ok value
    → ((final : B) × (rest value ≡ ok final))
    → ((final : B) × ((call >>= rest) ≡ ok final))
continues call value rest one (final, last) = (final, ap (λ c. c >>= rest) one ∙ last)

eq_sym : (s t : String) → str_eq s t ≡ false → str_eq t s ≡ false
eq_sym s t h = ground (arith, eq_iff s t, eq_iff t s)

module _ (N : Numbers) where
  -- whether one of the approved plans has the id
  abbrev pub has_id : String → List (ApprovedTradePlan N) → Bool
  has_id id [] = false
  has_id id (a ∷ rest) = str_eq a.plan.plan_id id || has_id id rest

  abbrev pub IsDistinct : List (ApprovedTradePlan N) → Type 0
  IsDistinct [] = Unit
  IsDistinct (a ∷ rest) = (has_id a.plan.plan_id rest ≡ false) × IsDistinct rest

  abbrev IsApart : Dict (ApprovedTradePlan N) → List (ApprovedTradePlan N) → Type 0
  IsApart index approved = All (λ a. contains a.plan.plan_id index ≡ false) approved

  IsApart-assign :
      (id : String) (a : ApprovedTradePlan N) (index : Dict (ApprovedTradePlan N))
      (rest : List (ApprovedTradePlan N))
      → has_id id rest ≡ false
      → IsApart index rest
      → IsApart (assign id a index) rest
  IsApart-assign id a index [] fresh apart = tt
  IsApart-assign id a index (r ∷ rest) fresh apart = (
    ground (arith, contains-assign id r.plan.plan_id a index, eq_sym r.plan.plan_id id, apart.0),
    IsApart-assign id a index rest (ground (arith, fresh)) apart.1,
  )

  assign-IsApart :
      (id : String) (a : ApprovedTradePlan N) (index : Dict (ApprovedTradePlan N))
      (rest : List (ApprovedTradePlan N))
      → IsApart (assign id a index) rest
      → (has_id id rest ≡ false) × IsApart index rest
  assign-IsApart id a index [] apart = (refl, tt)
  assign-IsApart id a index (r ∷ rest) apart =
      let (fresh, others) = assign-IsApart id a index rest apart.1 in
      let head = apart.0 in
      (
        ground (
          arith,
          contains-assign id r.plan.plan_id a index,
          eq_sym id r.plan.plan_id,
          head,
          fresh,
        ),
        (ground (arith, contains-assign id r.plan.plan_id a index, head), others),
      )

  index_from-returns :
      (index : Dict (ApprovedTradePlan N)) (approved : List (ApprovedTradePlan N))
      → IsApart index approved
      → IsDistinct approved
      → (index' : Dict (ApprovedTradePlan N)) × (index_from N index approved ≡ ok index')
  unfolding index_from
  index_from-returns index [] apart distinct = (index, refl)
  index_from-returns index (a ∷ rest) apart distinct = rw apart.0 (
      index_from-returns (assign a.plan.plan_id a index) rest
        (IsApart-assign a.plan.plan_id a index rest distinct.0 apart.1) distinct.1)

  pub index_from-IsDistinct :
      (index index' : Dict (ApprovedTradePlan N)) (approved : List (ApprovedTradePlan N))
      → index_from N index approved ≡ ok index'
      → IsApart index approved
        × IsDistinct approved
        × ((id : String) → contains id index' ≡ (contains id index || has_id id approved))
  unfolding index_from
  index_from-IsDistinct index index' [] h = (tt, tt, λ id. ground (arith, h))
  index_from-IsDistinct index index' (a ∷ rest) h =
      let id = a.plan.plan_id in
      elim (Bool-cases (contains id index)) [
        | inl found ↦ absurd (ground (arith, found))
        | inr new ↦
            let (apart, distinct, has) =
              index_from-IsDistinct (assign id a index) index' rest (ground (arith, new)) in
            let (fresh, others) = assign-IsApart id a index rest apart in
            (
              (new, others),
              (fresh, distinct),
              λ j. ground (arith, has j, contains-assign id j a index),
            )
      ]

  -- Without a series of realized profits, a report is built exactly where no two of the approved plans
  -- have the same id, whatever the results are.
  pub build_performance_report-IsDistinct :
      (stats : Statistics N) (approved : List (ApprovedTradePlan N))
      (results : List (ExecutionResult N)) (equity : Option N.Decimal) (periods : Option ℤ)
      → ((report : ResearchPerformanceReport N) × (build_performance_report N stats approved results
              [] equity periods
            ≡ ok report))
        ↔ IsDistinct approved
  unfolding build_performance_report risk_metrics
  build_performance_report-IsDistinct stats approved results equity periods = (
    λ built.
        let (index, one, _) = returned _ built.0 (index_from N [] approved) built.1 in
        (index_from-IsDistinct [] index approved one).1,
    λ distinct.
        let (index, one) = index_from-returns [] approved (none_apart approved) distinct in
        continues (index_from N [] approved) index _ one (_, refl),
  )
    where
      none_apart : (plans : List (ApprovedTradePlan N)) → IsApart [] plans
      none_apart [] = tt
      none_apart (a ∷ rest) = (refl, none_apart rest)
