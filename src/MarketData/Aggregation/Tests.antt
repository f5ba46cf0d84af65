-- ===== src/MarketData/Aggregation/Tests.antt =====
-- Candles of one minute, put together to five minutes, and the theorem at them.
use mytradingsystem.Base.{
  List, ℕ, [], ◌/◌, ◌∷◌, aware, pos, ◌*◌, ◌+◌, ◌≡◌, none, second, ◌-◌, ◌⊎◌, Option, err, ok, true,
  ◌+ℤ◌, refl, All,
}
use mytradingsystem.Domain.{Candle, candle}
use mytradingsystem.MarketData.Grouping.{
  Zone, minute_1, nse_open, combine, MarketSession, minute_5, not_a_multiple, by_time, week_1,
  not_daily,
}
use mytradingsystem.MarketData.Aggregation.{
  aggregate_closed_candles, outputs, source_available_at, calendar_of, aggregate_weekly,
}
use mytradingsystem.MarketData.Aggregation.Known.{PointInTime, aggregate-PointInTime}

-- A zone without an offset.
abbrev zone : Zone
zone = record {
  local_date = λ t. t / (86400 * second);
  combine_time = λ date minutes. (date * 86400 + minutes * 60) * second;
}

abbrev minute_at : ℕ → ℕ → Candle
minute_at k price = record {
  instrument_id = 1;
  timestamp = zone.combine_time 10 (nse_open + k);
  timeframe_seconds = 60;
  open_price = pos price;
  high = pos (price + 5);
  low = pos (price - 5);
  close = pos (price + 1);
  volume = pos 3;
  open_interest = none;
  is_closed = true;
}

-- Out of order, and one more than fills a bucket.
abbrev minutes : List Candle
minutes =
    minute_at 2 102
    ∷ minute_at 0 100
    ∷ minute_at 1 101
    ∷ minute_at 3 103
    ∷ minute_at 4 104
    ∷ minute_at 5 105
    ∷ []

abbrev five : Candle
five = record {
  instrument_id = 1;
  timestamp = zone.combine_time 10 nse_open;
  timeframe_seconds = 300;
  open_price = pos 100;
  high = pos 109;
  low = pos 95;
  close = pos 105;
  volume = pos 15;
  open_interest = none;
  is_closed = true;
}

aggregates_five :
    aggregate_closed_candles zone minutes minute_5
      (aware (zone.combine_time 10 (nse_open + 9)))
      none
    ≡ ok (five ∷ [])
unfolding aggregate_closed_candles outputs combine source_available_at candle ◌+ℤ◌
aggregates_five = refl

-- Before the end of the fifth minute there is nothing to give.
too_early :
    aggregate_closed_candles zone minutes minute_5
      (aware (zone.combine_time 10 (nse_open + 4)))
      none
    ≡ ok []
unfolding aggregate_closed_candles outputs combine source_available_at candle
too_early = refl

not_finer :
    aggregate_closed_candles zone minutes minute_1
      (aware (zone.combine_time 10 (nse_open + 9)))
      none
    ≡ err not_a_multiple
unfolding aggregate_closed_candles
not_finer = refl

abbrev daily : Candle
daily = record (minute_at 0 100) { timeframe_seconds = 86400 }

-- A week of which no day is over yet is refused as if its candles were not daily.
week_refused :
    aggregate_closed_candles zone
      (daily ∷ [])
      week_1
      (aware (zone.combine_time 10 (nse_open + 4)))
      none
    ≡ err not_daily
unfolding aggregate_closed_candles aggregate_weekly source_available_at
week_refused = refl

aggregate-PointInTime_example :
    (five ∷ [] ≡ [])
    ⊎ ((c : Candle) × (rest : List Candle) × (calendar : Option (List MarketSession)) × (by_time
            minutes
          ≡ c ∷ rest)
        × (calendar_of zone none ≡ ok calendar)
        × All
            (PointInTime zone minutes minute_5
              (zone.combine_time 10 (nse_open + 9))
              c.timeframe_seconds
              calendar)
            (five ∷ []))
aggregate-PointInTime_example =
    aggregate-PointInTime zone minutes minute_5 (zone.combine_time 10 (nse_open + 9)) none
      aggregates_five
