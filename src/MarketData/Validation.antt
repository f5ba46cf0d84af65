-- ===== src/MarketData/Validation.antt =====
-- packages/market_data/validation.py: raw candles are accepted or reported, never repaired. The time
-- of observation is given; the faults of a candle are those of its model.
pub mod Step
pub mod Accounts
pub mod Streams
pub mod Drift
use mytradingsystem.Domain.{Candle, CandleError, candle}
use mytradingsystem.Base.{
  Bool, ℕ, ℤ, pos, negsuc, neg, ◌+ℤ◌, ◌-ℤ◌, pos_part, ◌≡◌, ◌↔◌, ◌+◌, ◌-◌, ◌*◌, ◌/◌, zero, suc, true,
  false, arith, List, [], ◌∷◌, ◌++◌, String, Option, none, some, DateTime, aware, instant, is_naive,
  second, Result, ok, err, ◌>>=◌, any, ltb, leb, ltb_ℤ, leb_ℤ, ◌==◌, ◌==ℤ◌, ◌&&◌, if◌then◌else◌,
  Dict, KeyTest, eq_of_parts, ap, ap₂, lookup, insert, is_empty,
}

pub record RawCandle : Type 0 where
  pub instrument_id : ℕ
  pub timestamp : DateTime
  pub timeframe_seconds : ℤ
  pub open_price : ℤ
  pub high : ℤ
  pub low : ℤ
  pub close : ℤ
  pub volume : ℤ
  pub source_event_id : String
  pub open_interest : Option ℤ

-- The code of a quality event with its details.
pub data EventCode : Type 0 where
  invalid_timestamp duplicate timestamp_drift : EventCode
  out_of_order : ℕ → EventCode
  feed_gap : ℤ → EventCode
  invalid_candle : CandleError → EventCode

-- `severity == "error"`
abbrev pub is_error : EventCode → Bool
is_error (feed_gap missing) = false
is_error _ = true

pub record QualityEvent : Type 0 where
  pub instrument_id : ℕ
  pub timestamp : ℕ
  pub code : EventCode
  pub raw_event_id : String

-- The one error that leaves `validate`: the division by a timeframe of zero.
pub data ValidateError : Type 0 where
  zero_division : ValidateError

abbrev pub Stream : Type 0
Stream = ℕ × ℤ

abbrev pub same_stream : Stream → Stream → Bool
same_stream (i, f) (j, g) = i == j && f ==ℤ g

same_number : (i j : ℕ) (f g : ℤ) → same_stream (i, f) (j, g) ≡ true → i ≡ j
same_number i j f g h = ground arith

same_frame : (i j : ℕ) (f g : ℤ) → same_stream (i, f) (j, g) ≡ true → f ≡ g
same_frame i j f g h = eq_of_parts f g (ground arith)

same_both : (i j : ℕ) (f g : ℤ) → i ≡ j → f ≡ g → same_stream (i, f) (j, g) ≡ true
same_both i j f g h k = rw (h, k) (ground arith)

pub stream_test_iff : (a b : Stream) → (same_stream a b ≡ true) ↔ (a ≡ b)
stream_test_iff (i, f) (j, g) = (
  λ h. ap₂ (λ a b. (a, b)) (same_number i j f g h) (same_frame i j f g h),
  λ h. same_both i j f g (ap (λ x. x.0) h) (ap (λ x. x.1) h),
)

instance abbrev pub stream_keys : KeyTest Stream
stream_keys = record { same = same_stream; same_iff = stream_test_iff }

-- `(instrument_id, timestamp, timeframe_seconds)`
pub record Identity : Type 0 where
  pub stream : Stream
  pub time : ℕ

abbrev pub same_identity : Identity → Identity → Bool
same_identity a b = same_stream a.stream b.stream && a.time == b.time

-- The local variables of `validate`.
pub record State : Type 0 where
  pub accepted : List Candle
  pub events : List QualityEvent
  pub seen : List Identity
  pub previous_by_stream : Dict Stream ℕ

-- `now` and `maximum_timestamp_drift`, in microseconds.
pub record Clock : Type 0 where
  pub now : ℕ
  pub drift : ℤ

abbrev pub stream_of : RawCandle → Stream
stream_of raw = (raw.instrument_id, raw.timeframe_seconds)

abbrev pub identity_of : RawCandle → Identity
identity_of raw = record { stream = stream_of raw; time = instant raw.timestamp }

-- `seen.add(identity)`
abbrev pub marked : RawCandle → State → State
marked raw s = record s { seen = identity_of raw ∷ s.seen }

-- `timedelta(seconds=n)`
abbrev pub seconds : ℤ → ℤ
seconds (pos n) = pos (n * second)
seconds (negsuc n) = neg (pos (suc n * second))

-- `int(d // n)` for a delay of `d` microseconds and `n` seconds, rounded down; the source computes
-- it from `total_seconds`, which is exact for any delay below 285 years.
abbrev pub missing_in : ℕ → ℤ → Option ℤ
missing_in d (pos zero) = none
missing_in d (pos (suc n)) = some (pos (d / (suc n * second)))
missing_in d (negsuc n) = some (neg (pos ((d + suc n * second - 1) / (suc n * second))))

-- `timestamp - expected`, where it is positive.
abbrev pub gap_of : ℕ → RawCandle → ℕ → ℕ
gap_of previous raw t = pos_part (pos t -ℤ (pos previous +ℤ seconds raw.timeframe_seconds))

abbrev pub event : Clock → RawCandle → EventCode → QualityEvent
event c raw code = record {
  instrument_id = raw.instrument_id;
  timestamp = c.now;
  code = code;
  raw_event_id = raw.source_event_id;
}

abbrev pub report : Clock → RawCandle → EventCode → State → State
report c raw code s = record s { events = s.events ++ event c raw code ∷ [] }

abbrev pub raw_candle : Clock → RawCandle → ℕ → Result CandleError Candle
raw_candle c raw t =
    candle raw.instrument_id (aware t) raw.timeframe_seconds raw.open_price raw.high raw.low
      raw.close raw.volume raw.open_interest
      (leb_ℤ (pos t +ℤ seconds raw.timeframe_seconds) (pos c.now))

-- The `try` at the end of the loop's body.
abbrev pub accept_or_report : Clock → RawCandle → Result CandleError Candle → State → State
accept_or_report c raw (ok k) s = record s { accepted = s.accepted ++ k ∷ [] }
accept_or_report c raw (err x) s = report c raw (invalid_candle x) s

-- `previous_by_stream[stream] = timestamp`
abbrev pub noted : RawCandle → ℕ → State → State
noted raw t s = record s { previous_by_stream = insert (stream_of raw) t s.previous_by_stream }

-- `timestamp > now + self.maximum_timestamp_drift`
abbrev pub is_drifted : Clock → ℕ → Bool
is_drifted c t = ltb_ℤ (pos c.now +ℤ c.drift) (pos t)

-- From that assignment on.
unfoldable pub place : Clock → RawCandle → ℕ → State → State
place c raw t s =
    if is_drifted c t
    then report c raw timestamp_drift (noted raw t s)
    else accept_or_report c raw (raw_candle c raw t) (noted raw t s)

abbrev pub report_gap : Clock → RawCandle → Option ℤ → State → Result ValidateError State
report_gap c raw none s = err zero_division
report_gap c raw (some missing) s = ok (report c raw (feed_gap missing) s)

-- The comparison with the stream's previous time.
unfoldable pub after_previous :
    Clock → RawCandle → ℕ → Option ℕ → State → Result ValidateError State
after_previous c raw t none s = ok (place c raw t s)
after_previous c raw t (some previous) s =
    if ltb t previous
    then ok (report c raw (out_of_order previous) s)
    else if ltb_ℤ (pos previous +ℤ seconds raw.timeframe_seconds) (pos t)
    then (report_gap c raw (missing_in (gap_of previous raw t) raw.timeframe_seconds) s >>= λ s'.
        ok (place c raw t s'))
    else ok (place c raw t s)

-- The body of the loop.
unfoldable pub validate_one : Clock → RawCandle → State → Result ValidateError State
validate_one c raw s =
    if is_naive raw.timestamp
    then ok (report c raw invalid_timestamp s)
    else let t = instant raw.timestamp in
      if any (same_identity (identity_of raw)) s.seen
      then ok (report c raw duplicate s)
      else after_previous c raw t (lookup (stream_of raw) s.previous_by_stream) (marked raw s)

unfoldable pub validate_from : Clock → List RawCandle → State → Result ValidateError State
validate_from c [] s = ok s
validate_from c (raw ∷ raws) s = validate_one c raw s >>= λ s'. validate_from c raws s'

abbrev pub nothing_yet : State
nothing_yet = record { accepted = []; events = []; seen = []; previous_by_stream = [] }

-- `validate`; the result's two tuples are the state's first two fields.
unfoldable pub validate : Clock → List RawCandle → Result ValidateError State
validate c raws = validate_from c raws nothing_yet
