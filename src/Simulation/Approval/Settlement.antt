-- ===== src/Simulation/Approval/Settlement.antt =====
-- simulation/approval.py: `record_result`, `release_reservation`, `acknowledge_reconciliation`.
use Prim.Native.String.{◌++◌ as str_append}
use text.Mathlib.Text.{starts_with}
use llm_arbitrage_system.Base.{
  String, Bool, not, ◌&&◌, none, some, List, [], ◌∷◌, ◌++◌, map, str_eq,
}
use llm_arbitrage_system.Base.Tests.{if◌then◌else◌, ◌==◌}
use llm_arbitrage_system.Base.Lists.{select}
use llm_arbitrage_system.Domain.Numbers.{Numbers, zero_d, abs_d, sum_d}
use llm_arbitrage_system.Domain.Contracts.{
  ExecutionStatus, get, Fill, Venue, venue_code, fill_notional, buy, sell,
}
use llm_arbitrage_system.Domain.Plans.{ExecutionResult}
use llm_arbitrage_system.Simulation.Dicts.{assign, discard}
use llm_arbitrage_system.Simulation.Approval.Gate.{Approver}

-- the residual's dictionary key, `f"residual:{plan_id}"`
abbrev pub residual_key : String → String
residual_key plan_id = str_append "residual:" plan_id

module _ (N : Numbers) where
  open N use {Decimal, add, mul, neg, less, show}

  -- An entry of `net` and `prices`, which have the same keys.
  pub record Position : Type 0 where
    pub venue : Venue
    pub symbol : String
    pub net : Decimal
    pub price : Decimal

  abbrev pub signed : Fill N → Decimal
  signed fill = elim fill.side [ buy ↦ fill.quantity | sell ↦ neg fill.quantity ]

  abbrev pub is_position : Venue → String → Position → Bool
  is_position venue symbol p = venue_code p.venue == venue_code venue && str_eq p.symbol symbol

  -- the body of the loop in `_residual_notional`
  abbrev pub book_fill : Fill N → List Position → List Position
  book_fill fill [] =
      record {
        venue = fill.venue;
        symbol = fill.symbol;
        net = add (zero_d N) (signed fill);
        price = fill.price;
      }
      ∷ []
  book_fill fill (p ∷ rest) =
      if is_position fill.venue fill.symbol p
      then record p { net = add p.net (signed fill); price = fill.price } ∷ rest
      else p ∷ book_fill fill rest

  abbrev pub book_fills : List (Fill N) → List Position → List Position
  book_fills [] positions = positions
  book_fills (fill ∷ fills) positions = book_fills fills (book_fill fill positions)

  -- `_residual_notional`
  unfoldable pub residual_notional : ExecutionResult N → Decimal
  residual_notional result = sum_d N (
      map (λ p. mul (abs_d N p.net) p.price)
        (book_fills (result.fills ++ result.compensated_fills) []))

  abbrev pub halt_text : Decimal → String
  halt_text residual =
      str_append "unreconciled simulated residual of " (str_append (show residual) " USD")

  -- `record_result` behind the pop: a residual that is positive stays open and halts the runtime
  unfoldable pub record_residual : String → Decimal → Approver N → Approver N
  record_residual plan_id residual s =
      if less (zero_d N) residual
      then record s {
        open_exposure = assign (residual_key plan_id) residual s.open_exposure;
        halt_reason = some (halt_text residual);
      }
      else s

  -- `record_result` behind the pop, by the status of the result
  unfoldable pub settle :
      ExecutionStatus → String → String → ExecutionResult N → Approver N → Approver N
  unfolding record_residual residual_notional
  settle ExecutionStatus.filled plan_id key result s = record s {
    open_exposure = assign key (sum_d N (map (fill_notional N) result.fills)) s.open_exposure;
  }
  settle ExecutionStatus.compensated plan_id key result s = s
  settle _ plan_id key result s = record_residual plan_id (residual_notional result) s

  unfoldable pub record_result : String → ExecutionResult N → Approver N → Approver N
  unfolding settle
  record_result plan_id result s = elim (get plan_id s.reservations) [
    | none ↦ s
    | some (key, amount) ↦
        settle result.status plan_id key result
          (record s { reservations = discard plan_id s.reservations })
  ]

  unfoldable pub release_reservation : String → Approver N → Approver N
  release_reservation plan_id s = record s { reservations = discard plan_id s.reservations }

  -- `acknowledge_reconciliation`
  unfoldable pub acknowledge_reconciliation : Approver N → Approver N
  acknowledge_reconciliation s = record {
    reservations = s.reservations;
    open_exposure = select (λ e. not (starts_with e.0 "residual:")) s.open_exposure;
    halt_reason = none;
  }
