-- ===== src/Domain/Contracts.antt =====
-- domain/contracts.py: enumerations, market events, fills and results.
use llm_arbitrage_system.Base.{
  ℕ, String, Bool, true, false, not, ◌&&◌, Option, none, some, List, [], ◌∷◌, str_eq,
}
use llm_arbitrage_system.Base.Tests.{if◌then◌else◌, ◌==◌}
use llm_arbitrage_system.Base.Result.{Result, ok, raise_if, ◌>>◌}
use llm_arbitrage_system.Base.Int.{ℤ}
use llm_arbitrage_system.Domain.Numbers.{Numbers, zero_d, at_most, float_at_most}

pub data Venue : Type 0 where
  perp spot equity paper : Venue

pub data InstrumentKind : Type 0 where
  perp spot equity rwa_perp : InstrumentKind

pub data Side : Type 0 where
  buy sell : Side

abbrev pub opposite : Side → Side
opposite Side.buy = Side.sell
opposite Side.sell = Side.buy

pub data SignalKind : Type 0 where
  funding_arbitrage overcrowd_reversion lead_lag_rwa : SignalKind

pub data ExecutionStatus : Type 0 where
  filled partially_filled rejected failed compensated skipped : ExecutionStatus

abbrev pub venue_code : Venue → ℕ
venue_code Venue.perp = 0
venue_code Venue.spot = 1
venue_code Venue.equity = 2
venue_code Venue.paper = 3

abbrev pub status_code : ExecutionStatus → ℕ
status_code ExecutionStatus.filled = 0
status_code ExecutionStatus.partially_filled = 1
status_code ExecutionStatus.rejected = 2
status_code ExecutionStatus.failed = 3
status_code ExecutionStatus.compensated = 4
status_code ExecutionStatus.skipped = 5

-- `is` on the members of an enumeration
abbrev pub is_status : ExecutionStatus → ExecutionStatus → Bool
is_status a b = status_code a == status_code b

-- What the source keeps in a `Mapping[str, Any]`.
pub data Value (N : Numbers) : Type 0 where
  text : String → Value N
  flag : Bool → Value N
  number : N.Decimal → Value N
  nothing : Value N

abbrev pub Dict : Type 0 → Type 0
Dict V = List (String × V)

-- `mapping.get(key)`
abbrev pub get : {V : Type 0} → String → Dict V → Option V
get key [] = none
get key ((k, v) ∷ rest) = if str_eq k key then some v else get key rest

pub data ContractError : Type 0 where
  price_not_positive volume_negative bid_not_positive ask_not_positive : ContractError
  ask_below_bid high_below_low reference_not_positive sentiment_out_of_range : ContractError
  notional_not_positive slippage_negative scale_not_positive : ContractError
  no_legs confidence_out_of_range : ContractError
  quantity_negative filled_quantity_not_positive fee_negative not_a_number : ContractError

module _ (N : Numbers) where
  open N use {Decimal, Float, decimal, mul, less, float, float_neg}

  -- Timestamps are aware ones, in microseconds since the epoch.
  pub record MarketEvent : Type 0 where
    pub venue : Venue
    pub symbol : String
    pub instrument : InstrumentKind
    pub price : Decimal
    pub timestamp : ℤ
    pub bid : Option Decimal
    pub ask : Option Decimal
    pub high : Option Decimal
    pub low : Option Decimal
    pub volume_24h : Decimal
    pub funding_rate_hourly : Decimal
    pub sentiment_score : Option Float
    pub reference_price : Option Decimal
    pub reference_market_open : Option Bool
    pub metadata : Dict (Value N)

  -- `value is not None and value <= 0`
  abbrev not_positive : Option Decimal → Bool
  not_positive none = false
  not_positive (some d) = at_most N d (zero_d N)

  -- `a is not None and b is not None and b < a`
  abbrev below : Option Decimal → Option Decimal → Bool
  below (some a) (some b) = less b a
  below _ _ = false

  abbrev out_of_range : Option Float → Bool
  out_of_range none = false
  out_of_range (some f) =
      not (float_at_most N (float_neg (float 1 1)) f && float_at_most N f (float 1 1))

  -- `MarketEvent.__post_init__`
  unfoldable pub check_event : MarketEvent → Result ContractError MarketEvent
  check_event e = do
    raise_if (at_most N e.price (zero_d N)) price_not_positive
    raise_if (less e.volume_24h (zero_d N)) volume_negative
    raise_if (not_positive e.bid) bid_not_positive
    raise_if (not_positive e.ask) ask_not_positive
    raise_if (below e.bid e.ask) ask_below_bid
    raise_if (below e.low e.high) high_below_low
    raise_if (not_positive e.reference_price) reference_not_positive
    raise_if (out_of_range e.sentiment_score) sentiment_out_of_range
    ok e

  unfoldable pub funding_apy_pct : MarketEvent → Decimal
  funding_apy_pct e = mul e.funding_rate_hourly (decimal 876000)

  pub record FeatureSnapshot : Type 0 where
    pub symbol : String
    pub timestamp : ℤ
    pub efficiency_ratio : Float
    pub kama : Decimal
    pub zscore : Float
    pub atr_pct : Float
    pub filtered_price : Decimal
    pub observation_count : ℕ

  pub record Fill : Type 0 where
    pub venue : Venue
    pub symbol : String
    pub side : Side
    pub quantity : Decimal
    pub price : Decimal
    pub status : ExecutionStatus
    pub order_id : String
    pub client_order_id : String
    pub fee_usd : Decimal

  abbrev has_quantity : ExecutionStatus → Bool
  has_quantity ExecutionStatus.filled = true
  has_quantity ExecutionStatus.partially_filled = true
  has_quantity _ = false

  -- `Fill.__post_init__`
  unfoldable pub check_fill : Fill → Result ContractError Fill
  check_fill f = do
    raise_if (less f.quantity (zero_d N)) quantity_negative
    raise_if (has_quantity f.status && at_most N f.quantity (zero_d N)) filled_quantity_not_positive
    raise_if (at_most N f.price (zero_d N)) price_not_positive
    raise_if (less f.fee_usd (zero_d N)) fee_negative
    ok f

  -- `Fill.notional_usd`
  abbrev pub fill_notional : Fill → Decimal
  fill_notional f = mul f.quantity f.price
