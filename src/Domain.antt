-- ===== src/Domain.antt =====
-- packages/domain/models.py: the enumerations that the components share.
use mytradingsystem.Base.{
  String, ◌≡◌, Bool, true, false, arith, Option, ℕ, ℤ, ◌<◌, DateTime, ltb_ℤ, pos, Result, max_ℤ, ok,
  ◌<ℤ◌, ◌||◌, ◌≤ℤ◌, min_ℤ, some, ◌>>◌, raise_if, is_naive, leb_ℤ, instant, pos_part, none,
}

pub data OrderStatus : Type 0 where
  created risk_pending risk_rejected approved submitting submitted : OrderStatus
  acknowledged partially_filled filled cancel_pending cancelled : OrderStatus
  rejected expired reconciliation_required : OrderStatus

unfoldable pub OrderStatus-discrete : Discrete OrderStatus
OrderStatus-discrete = hlevel

-- `a is b` on statuses.
abbrev pub same_status : OrderStatus → OrderStatus → Bool
same_status a b = elim (OrderStatus-discrete a b) [ yes h ↦ true | no h ↦ false ]

pub same_status-eq : (a b : OrderStatus) → same_status a b ≡ true → a ≡ b
same_status-eq a b h = ground arith

pub data Side : Type 0 where
  buy sell : Side

-- `a is b` on sides.
abbrev pub same_side : Side → Side → Bool
same_side buy buy = true
same_side sell sell = true
same_side _ _ = false

pub data RiskOutcome : Type 0 where
  approve resize reject : RiskOutcome

pub data OrderType : Type 0 where
  market limit stop stop_limit : OrderType

pub data SignalAction : Type 0 where
  long short exit_position hold no_trade : SignalAction

pub record OrderIntent : Type 0 where
  pub intent_id : ℕ
  pub idempotency_key : String
  pub decision_id : ℕ
  pub account_id : ℕ
  pub instrument_id : ℕ
  pub side : Side
  pub order_type : OrderType
  pub quantity : ℤ
  pub limit_price : Option ℤ
  pub trigger_price : Option ℤ
  pub created_at : ℕ
  pub is_exit : Bool

pub data Exchange : Type 0 where
  nse bse : Exchange

pub data CandleError : Type 0 where
  naive_timestamp nonpositive_timeframe nonpositive_price negative_volume : CandleError
  negative_open_interest impossible_ohlc high_below_low : CandleError

-- A validated candle: its timestamp is an instant.
pub record Candle : Type 0 where
  pub instrument_id : ℕ
  pub timestamp : ℕ
  pub timeframe_seconds : ℕ
  pub open_price : ℤ
  pub high : ℤ
  pub low : ℤ
  pub close : ℤ
  pub volume : ℤ
  pub open_interest : Option ℤ
  pub is_closed : Bool

-- The relation that `validate_ohlc` enforces.
abbrev pub ohlc_impossible : ℤ → ℤ → ℤ → ℤ → Bool
ohlc_impossible o h l c = ltb_ℤ h (max_ℤ o c) || ltb_ℤ (min_ℤ o c) l

abbrev pub is_negative_interest : Option ℤ → Bool
is_negative_interest none = false
is_negative_interest (some x) = ltb_ℤ x (pos 0)

-- `Candle(...)`: the datetime rule, the bounds of the fields and `validate_ohlc`. Which of several
-- faults is named first is pydantic's choice; that there is one is not.
unfoldable pub candle :
    ℕ → DateTime → ℤ → ℤ → ℤ → ℤ → ℤ → ℤ → Option ℤ → Bool → Result CandleError Candle
candle instrument timestamp timeframe o h l c volume interest is_closed = do
  raise_if (is_naive timestamp) naive_timestamp
  raise_if (leb_ℤ timeframe (pos 0)) nonpositive_timeframe
  raise_if (leb_ℤ o (pos 0) || leb_ℤ h (pos 0) || leb_ℤ l (pos 0) || leb_ℤ c (pos 0))
      nonpositive_price
  raise_if (ltb_ℤ volume (pos 0)) negative_volume
  raise_if (is_negative_interest interest) negative_open_interest
  raise_if (ohlc_impossible o h l c) impossible_ohlc
  raise_if (ltb_ℤ h l) high_below_low
  ok (record {
    instrument_id = instrument;
    timestamp = instant timestamp;
    timeframe_seconds = pos_part timeframe;
    open_price = o;
    high = h;
    low = l;
    close = c;
    volume = volume;
    open_interest = interest;
    is_closed = is_closed;
  })

-- What the validation leaves.
pub record CandleIsValid (c : Candle) : Type 0 where
  pub timeframe_positive : 0 < c.timeframe_seconds
  pub low_positive : pos 0 <ℤ c.low
  pub low_open : c.low ≤ℤ c.open_price
  pub low_close : c.low ≤ℤ c.close
  pub open_high : c.open_price ≤ℤ c.high
  pub close_high : c.close ≤ℤ c.high
  pub volume_not_negative : pos 0 ≤ℤ c.volume

pub candle-IsValid :
    (i : ℕ) (t : DateTime) (f o h l k v : ℤ) (n : Option ℤ) (b : Bool) {c : Candle}
    → candle i t f o h l k v n b ≡ ok c
    → CandleIsValid c
unfolding candle
candle-IsValid i t f o h l k v n b e = ground arith
