-- ===== src/Simulation/Router/Keys.antt =====
-- The position keys that the router gives its plans, and what the approver's residuals are called.
use Prim.Native.String.{◌++◌ as str_append, ◌∷◌ as char_cons, [] as no_text}
use Prim.Native.String.append
use Prim.Native.Char.{Char, code}
use text.Mathlib.Text.{starts_with}
use text.Mathlib.TextEquality.{starts_with_iff}
use llm_arbitrage_system.Base.{ℕ, String, ◌≡◌, sym, ap, ◌∙◌, subst, false, some, inl, inr, arith}
use llm_arbitrage_system.Base.Tests.{Bool-cases}
use llm_arbitrage_system.Base.Result.{ok}
use llm_arbitrage_system.Domain.Numbers.{Numbers}
use llm_arbitrage_system.Domain.Contracts.{SignalKind, MarketEvent, FeatureSnapshot}
use llm_arbitrage_system.Domain.Plans.{TradePlan}
use llm_arbitrage_system.Simulation.Approval.Gate.{position_key, str_of}
use llm_arbitrage_system.Simulation.Approval.Exclusive.{is_residual}
use llm_arbitrage_system.Simulation.Router.{Ids, ResearchThresholds, route}
use llm_arbitrage_system.Simulation.Router.Scenarios.{Answers, route-Shown}

first_code : String → ℕ
first_code no_text = 0
first_code (char_cons c s) = code c

first_code-append : (c : Char) (s t : String) → first_code (str_append (char_cons c s) t) ≡ code c
unfolding first_code
first_code-append c s t = ap first_code (append.cons c s t)

no_prefix :
    (c d : Char) (s r t : String)
    → (code d ≡ code c → ⊥)
    → starts_with (str_append (char_cons c s) t) (char_cons d r) ≡ false
no_prefix c d s r t apart =
    elim (Bool-cases (starts_with (str_append (char_cons c s) t) (char_cons d r))) [
      | inr fails ↦ fails
      | inl holds ↦
          let (u, e) = (starts_with_iff (str_append (char_cons c s) t) (char_cons d r)).0 holds in
          absurd
            (apart (sym (first_code-append d r u) ∙ (ap first_code e ∙ first_code-append c s t)))
    ]

funding_key : (symbol : String) → starts_with (str_append "funding:" symbol) "residual:" ≡ false
funding_key symbol = no_prefix "f" "r" "unding:" "esidual:" symbol (λ e. absurd (omega (arith, e)))

crowding_key : (symbol : String) → starts_with (str_append "crowding:" symbol) "residual:" ≡ false
crowding_key symbol =
    no_prefix "c" "r" "rowding:" "esidual:" symbol (λ e. absurd (omega (arith, e)))

lead_lag_key : (symbol : String) → starts_with (str_append "lead-lag:" symbol) "residual:" ≡ false
lead_lag_key symbol =
    no_prefix "l" "r" "ead-lag:" "esidual:" symbol (λ e. absurd (omega (arith, e)))

module _ (N : Numbers) where
  by_strategy :
      (kind : SignalKind) (t : ResearchThresholds N) (ids : Ids) (event : MarketEvent N)
      (features : FeatureSnapshot N) (p : TradePlan N)
      → Answers N kind t ids event features p
      → is_residual N (position_key N p) ≡ false
  unfolding position_key str_of
  by_strategy SignalKind.funding_arbitrage t ids event features p
        (_, _, (hedge, price, _, _, same)) =
      subst (λ q. is_residual N (position_key N q) ≡ false) (sym same) (funding_key event.symbol)
  by_strategy SignalKind.overcrowd_reversion t ids event features p (_, _, _, _, same) =
      subst (λ q. is_residual N (position_key N q) ≡ false) (sym same) (crowding_key event.symbol)
  by_strategy SignalKind.lead_lag_rwa t ids event features p (_, _, (_, _, _, same), _, _) =
      subst (λ q. is_residual N (position_key N q) ≡ false) (sym same) (lead_lag_key event.symbol)

  -- The position key of a plan that the router returns never begins as the key under which the approver
  -- keeps a residual.
  pub route-names :
      (t : ResearchThresholds N) (ids : Ids) (event : MarketEvent N) (features : FeatureSnapshot N)
      (p : TradePlan N)
      → route N t ids event features ≡ ok (some p)
      → is_residual N (position_key N p) ≡ false
  route-names t ids event features p h =
      by_strategy p.strategy t ids event features p (route-Shown N t ids event features p h).3
