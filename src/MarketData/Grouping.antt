-- ===== src/MarketData/Grouping.antt =====
-- packages/market_data/aggregation.py: sessions, groups of candles and what a group is combined to.
-- The zone Asia/Kolkata is a parameter; an instant is in microseconds, and a date is its ordinal
-- number. The datetimes of candles and sessions are aware.
use mytradingsystem.Base.{
  List, ℕ, ℤ, Bool, Option, Result, [], ◌*◌, ◌∷◌, err, false, if◌then◌else◌, max_ℤ, min_ℤ, none, ok,
  some, true, ◌+◌, aware, leb, ◌==◌, ◌>>=◌, pos, second, ◌++◌, ltb, sum_ℤ, ◌&&◌, map,
}
use mytradingsystem.Domain.{Candle, CandleError, Exchange, candle, nse, bse}

-- The local date of an instant, and the instant of a date and a time of day in minutes.
pub record Zone : Type 0 where
  pub local_date : ℕ → ℕ
  pub combine_time : ℕ → ℕ → ℕ

abbrev pub nse_open : ℕ
nse_open = 9 * 60 + 15

abbrev pub nse_close : ℕ
nse_close = 15 * 60 + 30

pub data Timeframe : Type 0 where
  minute_1 minute_3 minute_5 minute_15 minute_30 hour_1 hour_4 day_1 week_1 : Timeframe

abbrev pub seconds_in : Timeframe → ℕ
seconds_in minute_1 = 60
seconds_in minute_3 = 180
seconds_in minute_5 = 300
seconds_in minute_15 = 900
seconds_in minute_30 = 1800
seconds_in hour_1 = 3600
seconds_in hour_4 = 14400
seconds_in day_1 = 86400
seconds_in week_1 = 604800

pub record MarketSession : Type 0 where
  pub session_exchange : Exchange
  pub session_date : ℕ
  pub opens_at : ℕ
  pub closes_at : ℕ
  pub is_trading_day : Bool

pub data AggregateError : Type 0 where
  naive_cutoff mixed_instruments mixed_timeframes not_a_multiple : AggregateError
  not_nse duplicate_date date_mismatch : AggregateError
  not_daily uncovered_week : AggregateError
  bad_candle : CandleError → AggregateError

abbrev pub lift_candle : Result CandleError Candle → Result AggregateError Candle
lift_candle (ok c) = ok c
lift_candle (err e) = err (bad_candle e)

abbrev pub is_nse : Exchange → Bool
is_nse nse = true
is_nse bse = false

-- `calendar[date]`, of the sessions in the calendar.
abbrev pub session_on : ℕ → List MarketSession → Option MarketSession
session_on date [] = none
session_on date (s ∷ ss) =
    let rest = session_on date ss in if s.session_date == date then some s else rest

abbrev pub insert_candle : Candle → List Candle → List Candle
insert_candle c [] = c ∷ []
insert_candle c (d ∷ ds) =
    let rest = insert_candle c ds in if leb c.timestamp d.timestamp then c ∷ d ∷ ds else d ∷ rest

-- `sorted(candles, key=lambda candle: candle.timestamp)`
abbrev pub by_time : List Candle → List Candle
by_time [] = []
by_time (c ∷ cs) = insert_candle c (by_time cs)

-- The groups in the order of their keys: `sorted(grouped.items())` of a dict that is filled.
abbrev pub add_member : ℕ → Candle → List (ℕ × List Candle) → List (ℕ × List Candle)
add_member key c [] = (key, c ∷ []) ∷ []
add_member key c ((k, cs) ∷ rest) =
    let later = add_member key c rest in
    if key == k
    then (k, cs ++ c ∷ []) ∷ rest
    else if ltb key k
    then (key, c ∷ []) ∷ (k, cs) ∷ rest
    else (k, cs) ∷ later

abbrev pub filled : List (ℕ × Candle) → List (ℕ × List Candle) → List (ℕ × List Candle)
filled [] groups = groups
filled ((key, c) ∷ rest) groups = filled rest (add_member key c groups)

-- `_is_contiguous`, of candles in order.
abbrev pub is_contiguous : ℕ → List Candle → Bool
is_contiguous base [] = true
is_contiguous base (c ∷ []) = true
is_contiguous base (c ∷ d ∷ cs) =
    (d.timestamp == c.timestamp + base * second) && is_contiguous base (d ∷ cs)

abbrev pub last_of : Candle → List Candle → Candle
last_of c [] = c
last_of c (d ∷ ds) = last_of d ds

abbrev pub highest : ℤ → List Candle → ℤ
highest x [] = x
highest x (c ∷ cs) = highest (max_ℤ x c.high) cs

abbrev pub lowest : ℤ → List Candle → ℤ
lowest x [] = x
lowest x (c ∷ cs) = lowest (min_ℤ x c.low) cs

-- `_combine`, of candles in order.
abbrev pub combined : ℕ → ℕ → Candle → List Candle → Result AggregateError Candle
combined start timeframe c cs = lift_candle (
    candle c.instrument_id (aware start) (pos timeframe) c.open_price (highest c.high cs)
      (lowest c.low cs) (last_of c cs).close (sum_ℤ (map (λ d. d.volume) (c ∷ cs)))
      (last_of c cs).open_interest true)

unfoldable pub combine : ℕ → ℕ → List Candle → Result AggregateError (List Candle)
combine start timeframe [] = ok []
combine start timeframe (c ∷ cs) = combined start timeframe c cs >>= λ x. ok (x ∷ [])
