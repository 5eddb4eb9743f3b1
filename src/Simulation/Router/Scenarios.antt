-- ===== src/Simulation/Router/Scenarios.antt =====
-- What the plans that the router returns have in common, and which scenario each one answers.
use llm_arbitrage_system.Base.{
  String, ◌≡◌, refl, sym, ap, subst, ◌∙◌, Bool, true, false, not, ◌||◌, Option, none, some, List,
  [], ◌∷◌, arith,
}
use llm_arbitrage_system.Base.Tests.{if◌then◌else◌}
use llm_arbitrage_system.Base.Lists.{All}
use llm_arbitrage_system.Base.Result.{Result, ok, returned}
use llm_arbitrage_system.Domain.Numbers.{Numbers, abs_d, abs_f}
use llm_arbitrage_system.Domain.Contracts.{
  Venue, SignalKind, Value, flag, get, MarketEvent, FeatureSnapshot, funding_apy_pct,
}
use llm_arbitrage_system.Domain.Plans.{OrderLeg, TradePlan, check_leg, check_plan, each_leg}
use llm_arbitrage_system.Simulation.Router.{
  Ids, ResearchThresholds, is_perpetual, is_rwa, is_closed, hedge_symbol, hedge_price, premium,
  built, funding, crowding, lead_lag, route, or_else, funding_plan, crowding_plan, lead_lag_plan,
  lacks_sentiment,
}

module _ {E A : Type 0} where
  tested :
      (test : Bool) (next : Result E (Option A)) (a : A)
      → (if test then ok none else next) ≡ ok (some a)
      → (test ≡ false) × (next ≡ ok (some a))
  tested true next a h = absurd (cc)
  tested false next a h = (refl, h)

  matched :
      {B : Type 0} (found : Option B) (next : B → Result E (Option A)) (a : A)
      → (elim found [ none ↦ ok none | some b ↦ next b ]) ≡ ok (some a)
      → (b : B) × (found ≡ some b) × (next b ≡ ok (some a))
  matched none next a h = absurd (cc)
  matched (some b) next a h = (b, refl, h)

neither : (a b : Bool) → (a || b) ≡ false → (a ≡ false) × (b ≡ false)
neither a b h = ground arith

not-false : (a : Bool) → not a ≡ false → a ≡ true
not-false a h = ground arith

closed_is : (o : Option Bool) → is_closed o ≡ true → o ≡ some false
closed_is none h = absurd (cc)
closed_is (some true) h = absurd (cc)
closed_is (some false) h = refl

module _ (N : Numbers) where
  open N use {Decimal, less, float, float_less}

  -- A plan that simulates only: every leg is at the paper venue and passes the checks of a leg, as
  -- the plan passes those of a plan, and its context says so and names a transition that opens.
  pub record IsPaper (plan : TradePlan N) : Type 0 where
    pub venues : All (λ leg. leg.venue ≡ Venue.paper) plan.legs
    pub legs_checked : All (λ leg. check_leg N leg ≡ ok leg) plan.legs
    pub checked : check_plan N plan ≡ ok plan
    pub simulated : get "simulation_only" plan.context ≡ some (flag true)
    pub opens : get "transition" plan.context ≡ some (Value.text "open")

  check_leg-same : (leg leg' : OrderLeg N) → check_leg N leg ≡ ok leg' → leg' ≡ leg
  unfolding check_leg
  check_leg-same leg leg' h = ground arith

  check_plan-same : (plan plan' : TradePlan N) → check_plan N plan ≡ ok plan' → plan' ≡ plan
  unfolding check_plan
  check_plan-same plan plan' h = ground arith

  each_leg-checked :
      (legs legs' : List (OrderLeg N))
      → each_leg N (check_leg N) legs ≡ ok legs'
      → (legs' ≡ legs) × All (λ leg. check_leg N leg ≡ ok leg) legs
  unfolding each_leg
  each_leg-checked [] legs' h = (cc, tt)
  each_leg-checked (leg ∷ legs) legs' h =
      let (leg', one, h₁) = returned _ (legs') (check_leg N leg) h in
      let (rest, more, h₂) = returned _ (legs') (each_leg N (check_leg N) legs) h₁ in
      let (same, all) = each_leg-checked legs rest more in
      let own = check_leg-same leg leg' one in (cc, (one ∙ ap ok own, all))

  built-checked :
      (plan p : TradePlan N)
      → built N plan ≡ ok (some p)
      → (p ≡ plan) × All (λ leg. check_leg N leg ≡ ok leg) plan.legs × (check_plan N plan ≡ ok plan)
  unfolding built
  built-checked plan p h =
      let (legs, one, h₁) = returned _ (some p) (each_leg N (check_leg N) plan.legs) h in
      let (q, two, h₂) = returned _ (some p) (check_plan N (record plan { legs = legs })) h₁ in
      let (same, all) = each_leg-checked plan.legs legs one in
      let two' = subst (λ ls. check_plan N (record plan { legs = ls }) ≡ ok q) same two in
      let own = check_plan-same plan q two' in (cc, all, two' ∙ ap ok own)

  -- The entry conditions of a scenario, and the plan it builds.
  abbrev pub Answers :
      SignalKind
      → ResearchThresholds N
      → Ids
      → MarketEvent N
      → FeatureSnapshot N
      → TradePlan N
      → Type 0
  Answers SignalKind.funding_arbitrage t ids event features plan =
      (is_perpetual event.instrument ≡ true)
      × (less (funding_apy_pct N event) t.funding_entry_apy_pct ≡ false)
      × ((hedge : String) × (price : Decimal) × (hedge_symbol N
              (get "paper_hedge_symbol" event.metadata)
            ≡ some hedge)
          × (hedge_price N event ≡ ok price)
          × (plan ≡ funding_plan N t ids event hedge price))
  Answers SignalKind.overcrowd_reversion t ids event features plan =
      (float_less (abs_f N features.zscore) t.crowd_entry_zscore ≡ false)
      × (float_less t.crowd_efficiency_ratio_maximum features.efficiency_ratio ≡ false)
      × (t.crowd_requires_sentiment ≡ true
          → lacks_sentiment N features.zscore event.sentiment_score ≡ false)
      × (funding N t ids event ≡ ok none)
      × (plan ≡ crowding_plan N t ids event features)
  Answers SignalKind.lead_lag_rwa t ids event features plan =
      (is_rwa event.instrument ≡ true)
      × (event.reference_market_open ≡ some false)
      × ((reference : Decimal) × (event.reference_price ≡ some reference)
          × (less (abs_d N (premium N event reference)) t.lead_lag_entry_premium_bps ≡ false)
          × (plan ≡ lead_lag_plan N t ids event (premium N event reference)))
      × (funding N t ids event ≡ ok none)
      × (crowding N t ids event features ≡ ok none)

  -- What is shown of a plan, whichever builder returned it.
  abbrev pub Shown :
      ResearchThresholds N → Ids → MarketEvent N → FeatureSnapshot N → TradePlan N → Type 0
  Shown t ids event features p =
      IsPaper p
      × (p.symbol ≡ event.symbol)
      × (p.created_at ≡ event.timestamp)
      × Answers p.strategy t ids event features p

  module _ (t : ResearchThresholds N) (ids : Ids) (event : MarketEvent N)
      (features : FeatureSnapshot N) (p : TradePlan N) where
    funding-Shown : funding N t ids event ≡ ok (some p) → Shown t ids event features p
    unfolding funding
    funding-Shown h =
        let (tests, h₁) = tested _ _ p h in
        let (hedge, named, h₂) =
          matched (hedge_symbol N (get "paper_hedge_symbol" event.metadata)) _ p h₁ in
        let (price, priced, h₃) = returned _ (some p) (hedge_price N event) h₂ in
        let (same, legs, plan) = built-checked (funding_plan N t ids event hedge price) p h₃ in
        let (kind, apy) = neither (not (is_perpetual event.instrument)) _ tests in
        subst (Shown t ids event features) (sym same) (
          record {
            venues = (refl, (refl, tt));
            legs_checked = legs;
            checked = plan;
            simulated = refl;
            opens = refl;
          },
          refl,
          refl,
          (not-false _ kind, apy, (hedge, price, named, priced, refl)),
        )

    crowding-Shown :
        funding N t ids event ≡ ok none
        → crowding N t ids event features ≡ ok (some p)
        → Shown t ids event features p
    unfolding crowding
    crowding-Shown before h =
        let (tests, h₁) = tested _ _ p h in
        let (same, legs, plan) = built-checked (crowding_plan N t ids event features) p h₁ in
        let (far, tests') =
          neither (float_less (abs_f N features.zscore) t.crowd_entry_zscore) _ tests in
        let (calm, mood) =
          neither (float_less t.crowd_efficiency_ratio_maximum features.efficiency_ratio) _
            tests' in
        subst (Shown t ids event features) (sym same) (
          record {
            venues = (refl, tt);
            legs_checked = legs;
            checked = plan;
            simulated = refl;
            opens = refl;
          },
          refl,
          refl,
          (far, calm, (λ needed. ground (arith, mood)), before, refl),
        )

    lead_lag-Shown :
        funding N t ids event ≡ ok none
        → crowding N t ids event features ≡ ok none
        → lead_lag N t ids event ≡ ok (some p)
        → Shown t ids event features p
    unfolding lead_lag
    lead_lag-Shown before second h =
        let (tests, h₁) = tested _ _ p h in
        let (reference, known, h₂) = matched event.reference_price _ p h₁ in
        let (wide, h₃) = tested _ _ p h₂ in
        let (same, legs, plan) =
          built-checked (lead_lag_plan N t ids event (premium N event reference)) p h₃ in
        let (kind, closed) = neither (not (is_rwa event.instrument)) _ tests in
        subst (Shown t ids event features) (sym same) (
          record {
            venues = (refl, tt);
            legs_checked = legs;
            checked = plan;
            simulated = refl;
            opens = refl;
          },
          refl,
          refl,
          (
            not-false _ kind,
            closed_is _ (not-false _ closed),
            (reference, known, wide, refl),
            before,
            second,
          ),
        )

    -- Every plan that the router returns simulates only: all its legs are at the paper venue, and they
    -- and the plan pass their checks; it is for the event's symbol and time. It answers the scenario
    -- that its strategy names: the entry conditions hold, the builders before it returned none, and
    -- the legs, sides, edge and confidence are those of the scenario.
    pub route-Shown : route N t ids event features ≡ ok (some p) → Shown t ids event features p
    unfolding route
    route-Shown h =
        let (first, one, h₁) = returned _ (some p) (funding N t ids event) h in
        let (second, two, h₂) =
          returned _ (some p) (or_else N first (crowding N t ids event features)) h₁ in
        by_first first one second two h₂
      where
        by_second :
            funding N t ids event ≡ ok none
            → (second : Option (TradePlan N)) → crowding N t ids event features ≡ ok second
            → or_else N second (lead_lag N t ids event) ≡ ok (some p)
            → Shown t ids event features p
        by_second before none two last = lead_lag-Shown before two last
        by_second before (some q) two last = crowding-Shown before (two ∙ last)

        by_first :
            (first : Option (TradePlan N))
            → funding N t ids event ≡ ok first
            → (second : Option (TradePlan N))
            → or_else N first (crowding N t ids event features) ≡ ok second
            → or_else N second (lead_lag N t ids event) ≡ ok (some p)
            → Shown t ids event features p
        by_first none one second two last = by_second one second two last
        by_first (some q) one none two last = absurd (cc)
        by_first (some q) one (some q') two last = funding-Shown (one ∙ (two ∙ last))
