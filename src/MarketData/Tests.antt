-- ===== src/MarketData/Tests.antt =====
-- Validations of concrete records, and the theorems at records that meet their hypotheses.
use mytradingsystem.Base.{
  ℤ, pos, ◌≡◌, ◌+◌, List, [], ◌∷◌, ok, err, aware, naive, none, refl, length, DateTime, lookup,
  insert, ◌+ℤ◌, ◌-ℤ◌,
}
use mytradingsystem.Domain.{candle, impossible_ohlc}
use mytradingsystem.MarketData.Validation.{
  stream_keys, RawCandle, State, Clock, EventCode, duplicate, invalid_timestamp, out_of_order,
  feed_gap, invalid_candle, validate, validate_from, validate_one, after_previous, place,
  zero_division, QualityEvent,
}
use mytradingsystem.MarketData.Validation.Accounts.{error_count, validate-accounted}
use mytradingsystem.MarketData.Validation.Streams.{Ascends, validate-Ascends}

-- Ten minutes after the start, with two minutes of drift.
abbrev clock : Clock
clock = record { now = 600000000; drift = pos 120000000 }

abbrev raw_at : DateTime → ℤ → ℤ → RawCandle
raw_at time frame high = record {
  instrument_id = 1;
  timestamp = time;
  timeframe_seconds = frame;
  open_price = pos 100;
  high = high;
  low = pos 90;
  close = pos 100;
  volume = pos 5;
  source_event_id = "e";
  open_interest = none;
}

-- Two good minutes, the second again, a gap of one minute, an earlier time, a bad high, a naive time.
abbrev records : List RawCandle
records =
    raw_at (aware 0) (pos 60) (pos 110)
    ∷ raw_at (aware 60000000) (pos 60) (pos 110)
    ∷ raw_at (aware 60000000) (pos 60) (pos 110)
    ∷ raw_at (aware 180000000) (pos 60) (pos 110)
    ∷ raw_at (aware 30000000) (pos 60) (pos 110)
    ∷ raw_at (aware 240000000) (pos 60) (pos 95)
    ∷ raw_at (naive 300000000) (pos 60) (pos 110)
    ∷ []

abbrev codes_of : List QualityEvent → List EventCode
codes_of [] = []
codes_of (e ∷ es) = e.code ∷ codes_of es

records_run :
    (s : State) × (validate clock records ≡ ok s)
    × (length s.accepted ≡ 3)
    × (codes_of s.events
        ≡ duplicate
          ∷ feed_gap (pos 1)
          ∷ out_of_order 180000000
          ∷ invalid_candle impossible_ohlc
          ∷ invalid_timestamp
          ∷ [])
unfolding validate validate_from validate_one after_previous place lookup insert candle ◌+ℤ◌ ◌-ℤ◌
records_run = (_, refl, refl, refl)

-- A timeframe of zero after a first record is a division by zero.
zero_frame :
    validate clock (raw_at (aware 0) (pos 0) (pos 110) ∷ raw_at (aware 1) (pos 0) (pos 110) ∷ [])
    ≡ err zero_division
unfolding validate validate_from validate_one after_previous place lookup insert candle ◌+ℤ◌ ◌-ℤ◌
zero_frame = refl

validate-accounted_example : length records_run.0.accepted + error_count records_run.0.events ≡ 7
validate-accounted_example = validate-accounted clock records records_run.1

validate-Ascends_example : Ascends records_run.0.accepted
validate-Ascends_example = validate-Ascends clock records records_run.1

abbrev future : RawCandle
future = raw_at (aware 900000000) (pos 60) (pos 110)

abbrev timely : RawCandle
timely = raw_at (aware 540000000) (pos 60) (pos 110)
