-- ===== src/MarketData/Aggregation.antt =====
-- packages/market_data/aggregation.py: the aggregation of what is available.
pub mod Members
pub mod Known
mod Tests
use mytradingsystem.Base.{
  List, ℕ, ℤ, Bool, Option, map, ◌-◌, DateTime, Result, [], all, any, false, if◌then◌else◌, leb,
  none, not, some, true, ◌&&◌, ◌+◌, ◌∷◌, is_some, length, ltb, max, ◌%◌, ◌==◌, ◌||◌, err, ok, ◌*◌,
  ◌/◌, ◌>>=◌, ◌>>◌, min, raise_if, second, ◌++◌, is_naive, instant,
}
use mytradingsystem.Domain.{Candle}
use mytradingsystem.MarketData.Grouping.{
  Zone, MarketSession, Timeframe, nse_close, session_on, AggregateError, nse_open, seconds_in,
  day_1, week_1, combine, filled, by_time, is_contiguous, is_nse, mixed_instruments, not_daily,
  uncovered_week, mixed_timeframes, naive_cutoff, not_nse, duplicate_date, not_a_multiple,
  date_mismatch,
}

-- A session's opening and closing.
pub record Hours : Type 0 where
  pub opening : ℕ
  pub closing : ℕ

module _ (z : Zone) where
  -- `_session_lookup`; the weekly loop over the sessions makes the same tests.
  unfoldable pub session_lookup :
      List MarketSession → List MarketSession → Result AggregateError (List MarketSession)
  session_lookup [] calendar = ok calendar
  session_lookup (s ∷ ss) calendar = do
    raise_if (not (is_nse s.session_exchange)) not_nse
    raise_if (is_some (session_on s.session_date calendar)) duplicate_date
    raise_if (not (z.local_date s.opens_at == s.session_date)) date_mismatch
    session_lookup ss (calendar ++ s ∷ [])

  abbrev pub calendar_of :
      Option (List MarketSession) → Result AggregateError (Option (List MarketSession))
  calendar_of none = ok none
  calendar_of (some ss) = session_lookup ss [] >>= λ calendar. ok (some calendar)

  -- `local_date in calendar`
  abbrev pub listed : ℕ → Option (List MarketSession) → Option MarketSession
  listed date none = none
  listed date (some calendar) = session_on date calendar

  abbrev pub close_of : ℕ → Option MarketSession → ℕ
  close_of date none = z.combine_time date nse_close
  close_of date (some s) = s.closes_at

  -- `_source_available_at`
  unfoldable pub source_available_at : ℕ → Option (List MarketSession) → Candle → ℕ
  source_available_at timeframe calendar c =
      let date = z.local_date c.timestamp in
      if timeframe == seconds_in day_1
      then close_of date (listed date calendar)
      else c.timestamp + timeframe * second

  abbrev pub candle_available_at : Candle → ℕ
  candle_available_at c = source_available_at c.timeframe_seconds none c

  abbrev pub is_available : ℕ → ℕ → Option (List MarketSession) → Candle → Bool
  is_available cutoff base calendar c =
      c.is_closed && leb (source_available_at base calendar c) cutoff

  abbrev pub hours : ℕ → Option MarketSession → Option Hours
  hours date none =
      some
        (record { opening = z.combine_time date nse_open; closing = z.combine_time date nse_close })
  hours date (some s) =
      if s.is_trading_day
      then some (record { opening = s.opens_at; closing = s.closes_at })
      else none

  abbrev pub bucket_in : Timeframe → ℕ → Option Hours → Option ℕ
  bucket_in target t none = none
  bucket_in target t (some h) =
      let size = seconds_in target * second in
      if not (leb h.opening t && ltb t h.closing)
      then none
      else if seconds_in target == seconds_in day_1
      then some h.opening
      else some (h.opening + ((t - h.opening) / size) * size)

  abbrev pub bucket_of : Timeframe → Option (List MarketSession) → Candle → Option ℕ
  bucket_of target calendar c =
      let date = z.local_date c.timestamp in
      bucket_in target c.timestamp (hours date (listed date calendar))

  abbrev pub placed : Option ℕ → Candle → List (ℕ × Candle) → List (ℕ × Candle)
  placed none c rest = rest
  placed (some bucket) c rest = (bucket, c) ∷ rest

  -- The loop over the available candles, with their buckets.
  abbrev pub bucketed : Timeframe → Option (List MarketSession) → List Candle → List (ℕ × Candle)
  bucketed target calendar [] = []
  bucketed target calendar (c ∷ cs) =
      placed (bucket_of target calendar c) c (bucketed target calendar cs)

  abbrev pub bucket_end : Timeframe → Option (List MarketSession) → ℕ → ℕ
  bucket_end target calendar bucket =
      let date = z.local_date bucket in
      let closing = close_of date (listed date calendar) in
      if seconds_in target == seconds_in day_1
      then closing
      else min (bucket + seconds_in target * second) closing

  abbrev pub is_complete : Timeframe → ℕ → ℕ → Option (List MarketSession) → ℕ → List Candle → Bool
  is_complete target base cutoff calendar bucket members =
      let end = bucket_end target calendar bucket in
      leb end cutoff
      && length members == ((end - bucket) / second) / base
      && is_contiguous base (by_time members)

  -- Where a group is complete, the output's time.
  abbrev pub bucket_start :
      Timeframe
      → ℕ
      → ℕ
      → Option (List MarketSession)
      → ℕ
      → List Candle
      → Result AggregateError (Option ℕ)
  bucket_start target base cutoff calendar bucket members =
      ok (if is_complete target base cutoff calendar bucket members then some bucket else none)

  -- `date - timedelta(days=date.weekday())`
  abbrev pub monday_of : ℕ → ℕ
  monday_of date = date - (date + 6) % 7

  abbrev pub by_week : List Candle → List (ℕ × Candle)
  by_week cs = map {B = ℕ × Candle} (λ c. (monday_of (z.local_date c.timestamp), c)) cs

  abbrev pub dates_of : List Candle → List ℕ
  dates_of cs = map (λ c. z.local_date c.timestamp) cs

  abbrev pub is_date : ℕ → List ℕ → Bool
  is_date d ds = any (λ e. e == d) ds

  abbrev pub has_repeat : List ℕ → Bool
  has_repeat [] = false
  has_repeat (d ∷ ds) = is_date d ds || has_repeat ds

  abbrev pub trading_in : ℕ → List MarketSession → List MarketSession
  trading_in monday [] = []
  trading_in monday (s ∷ ss) =
      let rest = trading_in monday ss in
      if leb monday s.session_date && ltb s.session_date (monday + 7) && s.is_trading_day
      then s ∷ rest
      else rest

  abbrev pub opens_with : List MarketSession → Candle → Bool
  opens_with trading c = elim (session_on (z.local_date c.timestamp) trading) [
    | none ↦ true
    | some s ↦ c.timestamp == s.opens_at
  ]

  abbrev pub is_full_week : List MarketSession → List Candle → Bool
  is_full_week trading members =
      let dates = dates_of members in
      not (has_repeat dates)
      && all (λ d. is_some (session_on d trading)) dates
      && all (λ s. is_date s.session_date dates) trading
      && all (opens_with trading) members

  abbrev pub latest_close : ℕ → List MarketSession → ℕ
  latest_close t [] = t
  latest_close t (s ∷ ss) = latest_close (max t s.closes_at) ss

  abbrev pub closes_by : ℕ → List MarketSession → ℕ
  closes_by cutoff [] = cutoff
  closes_by cutoff (s ∷ ss) = latest_close s.closes_at ss

  abbrev pub start_if : Bool → List Candle → Option ℕ
  start_if complete [] = none
  start_if complete (c ∷ cs) = if complete then some c.timestamp else none

  abbrev pub covers_week : List MarketSession → ℕ → Bool
  covers_week calendar monday =
      all (λ k. is_some (session_on (monday + k) calendar)) (0 ∷ 1 ∷ 2 ∷ 3 ∷ 4 ∷ [])

  abbrev pub week_start :
      ℕ → Option (List MarketSession) → ℕ → List Candle → Result AggregateError (Option ℕ)
  week_start cutoff none monday members =
      let closing = z.combine_time (monday + 4) nse_close in
      ok (start_if (length members == 5 && leb closing cutoff) members)
  week_start cutoff (some calendar) monday members =
      let trading = trading_in monday calendar in
      let complete = is_full_week trading members && leb (closes_by cutoff trading) cutoff in
      raise_if (not (covers_week calendar monday)) uncovered_week >> ok (start_if complete members)

  abbrev pub output_at : Timeframe → Option ℕ → List Candle → Result AggregateError (List Candle)
  output_at target none members = ok []
  output_at target (some start) members = combine start (seconds_in target) (by_time members)

  -- The loop over the groups.
  unfoldable pub outputs :
      Timeframe
      → (ℕ → List Candle → Result AggregateError (Option ℕ))
      → List (ℕ × List Candle)
      → Result AggregateError (List Candle)
  outputs target start [] = ok []
  outputs target start ((key, members) ∷ rest) = do
    from ← start key members
    first ← output_at target from members
    later ← outputs target start rest
    ok (first ++ later)

  abbrev pub available : ℕ → ℕ → Option (List MarketSession) → List Candle → List Candle
  available cutoff base calendar [] = []
  available cutoff base calendar (c ∷ cs) =
      let rest = available cutoff base calendar cs in
      if is_available cutoff base calendar c then c ∷ rest else rest

  abbrev pub is_daily : List Candle → Bool
  is_daily [] = false
  is_daily (c ∷ cs) = c.timeframe_seconds == seconds_in day_1

  -- `_aggregate_weekly`; the sessions have passed its tests, which are those of the lookup.
  unfoldable pub aggregate_weekly :
      ℕ → Option (List MarketSession) → List Candle → Result AggregateError (List Candle)
  aggregate_weekly cutoff calendar cs = do
    raise_if (not (is_daily cs)) not_daily
    outputs week_1 (week_start cutoff calendar) (filled (by_week cs) [])

  -- From the available candles on.
  abbrev pub aggregate_available :
      Timeframe
      → ℕ
      → ℕ
      → Option (List MarketSession)
      → List Candle
      → Result AggregateError (List Candle)
  aggregate_available target base cutoff calendar cs =
      if seconds_in target == seconds_in week_1
      then aggregate_weekly cutoff calendar cs
      else outputs target (bucket_start target base cutoff calendar)
          (filled (bucketed target calendar cs) [])

  abbrev pub aggregate_sorted :
      Timeframe
      → ℕ
      → Option (List MarketSession)
      → List Candle
      → Result AggregateError (List Candle)
  aggregate_sorted target cutoff sessions [] = ok []
  aggregate_sorted target cutoff sessions (c ∷ cs) =
      let base = c.timeframe_seconds in
      let size = seconds_in target in
      do
        raise_if (any (λ d. not (d.instrument_id == c.instrument_id)) (c ∷ cs)) mixed_instruments
        raise_if (any (λ d. not (d.timeframe_seconds == base)) (c ∷ cs)) mixed_timeframes
        raise_if (leb size base || not (size % base == 0)) not_a_multiple
        calendar ← calendar_of sessions
        aggregate_available target base cutoff calendar (available cutoff base calendar (c ∷ cs))

  unfoldable pub aggregate_closed_candles :
      List Candle
      → Timeframe
      → DateTime
      → Option (List MarketSession)
      → Result AggregateError (List Candle)
  aggregate_closed_candles cs target as_of sessions = do
    raise_if (is_naive as_of) naive_cutoff
    aggregate_sorted target (instant as_of) sessions (by_time cs)
