-- ===== src/MarketData/Aggregation/Known.antt =====
-- An aggregate is made of what was known.
use mathlib.Core.List.{Memᴰ}
use mytradingsystem.Base.{
  List, ℕ, All, [], ◌++◌, ◌∷◌, Bool-cases, Option, leb, ◌==◌, inl, inr, Result, ◌≡◌, ◌≤◌, err,
  length, ok, true, arith, none, some, ◌-◌, ◌/◌, second, subst, ok_injective, ℤ, >>=-ok, ap, aware,
  refl, pos, ◌∙◌, raise_if-ok, not, sym, ◌⊎◌, any, ◌||◌, ◌%◌,
}
use mytradingsystem.Domain.{Candle, CandleIsValid, CandleError, candle, candle-IsValid}
use mytradingsystem.MarketData.Grouping.{
  Zone, filled, Timeframe, by_time, MarketSession, combine, AggregateError, seconds_in,
  is_contiguous, week_1, lift_candle, combined, not_daily, minute_1, minute_3, minute_5, minute_15,
  minute_30, mixed_instruments, hour_1, mixed_timeframes, hour_4, day_1, not_a_multiple,
}
use mytradingsystem.MarketData.Aggregation.{
  outputs, by_week, bucketed, bucket_end, available, is_available, source_available_at, week_start,
  output_at, aggregate_weekly, bucket_start, aggregate_available, is_complete, is_daily,
  aggregate_closed_candles, calendar_of, aggregate_sorted,
}
use mytradingsystem.MarketData.Aggregation.Members.{
  AllMembers, by_time-All, filled-All, by_week-All, bucketed-All,
}

-- Why a group is complete, and the time of its aggregate.
pub data Completed (z : Zone) (target : Timeframe) (base cutoff : ℕ)
    (calendar : Option (List MarketSession)) (members : List Candle) (start : ℕ) : Type 0 where
  bucket :
      bucket_end z target calendar start ≤ cutoff
      → length members ≡ ((bucket_end z target calendar start - start) / second) / base
      → is_contiguous base (by_time members) ≡ true
      → Completed z target base cutoff calendar members start
  week :
      (monday : ℕ)
      → seconds_in target ≡ seconds_in week_1
      → week_start z cutoff calendar monday members ≡ ok (some start)
      → Completed z target base cutoff calendar members start

-- What an aggregate is made of: closed candles of the source, each of which was available by the
-- time asked for, in a group that is complete.
pub record PointInTime (z : Zone) (cs : List Candle) (target : Timeframe) (cutoff base : ℕ)
    (calendar : Option (List MarketSession)) (o : Candle) : Type 0 where
  pub members : List Candle
  pub start : ℕ
  pub sources :
      All
        (λ c. Memᴰ c cs × (c.is_closed ≡ true) × (source_available_at z base calendar c ≤ cutoff))
        members
  pub completed : Completed z target base cutoff calendar members start
  pub made : combine start (seconds_in target) (by_time members) ≡ ok (o ∷ [])
  pub timed : (o.timestamp ≡ start) × (o.timeframe_seconds ≡ seconds_in target)
  pub valid : CandleIsValid o

week_only : (target : Timeframe) → (seconds_in target == seconds_in week_1) ≡ true → target ≡ week_1
week_only week_1 e = refl
week_only minute_1 e = absurd (ground (arith, e))
week_only minute_3 e = absurd (ground (arith, e))
week_only minute_5 e = absurd (ground (arith, e))
week_only minute_15 e = absurd (ground (arith, e))
week_only minute_30 e = absurd (ground (arith, e))
week_only hour_1 e = absurd (ground (arith, e))
week_only hour_4 e = absurd (ground (arith, e))
week_only day_1 e = absurd (ground (arith, e))

list-cases :
    (cs : List Candle) → (cs ≡ []) ⊎ ((c : Candle) × (rest : List Candle) × (cs ≡ c ∷ rest))
list-cases [] = inl refl
list-cases (c ∷ cs) = inr (c, cs, refl)

lifted : (r : Result CandleError Candle) {o : Candle} → lift_candle r ≡ ok o → r ≡ ok o
lifted (ok c) h = ap ok (ok_injective h)
lifted (err e) h = absurd (ground arith)

candle-timed :
    (i t f : ℕ) (o h l k v : ℤ) (n : Option ℤ) {c : Candle}
    → candle i (aware t) (pos f) o h l k v n true ≡ ok c
    → (c.timestamp ≡ t) × (c.timeframe_seconds ≡ f)
unfolding candle
candle-timed i t f o h l k v n e = (ground arith, ground arith)

-- What a group's aggregate is.
record IsAggregate (start size : ℕ) (ds : List Candle) (o : Candle) : Type 0 where
  made : combine start size ds ≡ ok (o ∷ [])
  timed : (o.timestamp ≡ start) × (o.timeframe_seconds ≡ size)
  valid : CandleIsValid o

combine-IsAggregate :
    (start size : ℕ) (ds : List Candle) {outs : List Candle}
    → combine start size ds ≡ ok outs
    → All (IsAggregate start size ds) outs
unfolding combine
combine-IsAggregate start size [] h = subst (All (IsAggregate start size [])) (ok_injective h) tt
combine-IsAggregate start size (c ∷ ds) h =
    let (o, one, is) = >>=-ok (combined start size c ds) (λ x. ok (x ∷ [])) h in
    let e = lifted _ one in
    subst (All (IsAggregate start size (c ∷ ds))) (ok_injective is) (
      record {
        made = rw one refl;
        timed = candle-timed _ _ _ _ _ _ _ _ _ e;
        valid = candle-IsValid _ _ _ _ _ _ _ _ _ _ e;
      },
      tt,
    )

module _ (z : Zone) (cs : List Candle) (target : Timeframe) (cutoff base : ℕ)
    (calendar : Option (List MarketSession)) where
  abbrev Source : Candle → Type 0
  Source c = Memᴰ c cs × (c.is_closed ≡ true) × (source_available_at z base calendar c ≤ cutoff)

  available-Source :
      (ds : List Candle)
      → All (λ c. Memᴰ c cs) ds
      → All Source (available z cutoff base calendar ds)
  available-Source [] h = tt
  available-Source (d ∷ ds) h = elim (Bool-cases (is_available z cutoff base calendar d)) [
    | inl e ↦ rw e ((h.0, ground (arith, e), ground (arith, e)), available-Source ds h.1)
    | inr e ↦ rw e (available-Source ds h.1)
  ]

  both :
      (xs ys : List Candle)
      → All (PointInTime z cs target cutoff base calendar) xs
      → All (PointInTime z cs target cutoff base calendar) ys
      → All (PointInTime z cs target cutoff base calendar) (xs ++ ys)
  both [] ys h k = k
  both (x ∷ xs) ys h k = (h.0, both xs ys h.1 k)

  aggregates :
      (members : List Candle) (start : ℕ) (outs : List Candle)
      → All Source members
      → Completed z target base cutoff calendar members start
      → All (IsAggregate start (seconds_in target) (by_time members)) outs
      → All (PointInTime z cs target cutoff base calendar) outs
  aggregates members start [] h c k = tt
  aggregates members start (o ∷ os) h c k = (
    record {
      members = members;
      start = start;
      sources = h;
      completed = c;
      made = k.0.made;
      timed = k.0.timed;
      valid = k.0.valid;
    },
    aggregates members start os h c k.1,
  )

  group-PointInTime :
      (members : List Candle) (from : Option ℕ) {outs : List Candle}
      → All Source members
      → ((t : ℕ) → from ≡ some t → Completed z target base cutoff calendar members t)
      → output_at z target from members ≡ ok outs
      → All (PointInTime z cs target cutoff base calendar) outs
  group-PointInTime members none h why is =
      subst (All (PointInTime z cs target cutoff base calendar)) (ok_injective is) tt
  group-PointInTime members (some t) {outs = outs} h why is =
      aggregates members t outs h (why t refl)
        (combine-IsAggregate t (seconds_in target) (by_time members) is)

  outputs-PointInTime :
      (start : ℕ → List Candle → Result AggregateError (Option ℕ)) (groups : List (ℕ × List Candle))
      {outs : List Candle}
      → ((key : ℕ) (members : List Candle) (from : ℕ)
          → start key members ≡ ok (some from)
          → Completed z target base cutoff calendar members from)
      → AllMembers Source groups
      → outputs z target start groups ≡ ok outs
      → All (PointInTime z cs target cutoff base calendar) outs
  unfolding outputs
  outputs-PointInTime start [] why h is =
      subst (All (PointInTime z cs target cutoff base calendar)) (ok_injective is) tt
  outputs-PointInTime start ((key, members) ∷ rest) why h is =
      let (from, started, is1) = >>=-ok (start key members) _ is in
      let (first, made, is2) = >>=-ok (output_at z target from members) _ is1 in
      let (later, others, is3) = >>=-ok (outputs z target start rest) _ is2 in
      subst (All (PointInTime z cs target cutoff base calendar)) (ok_injective is3) (
        both first later
          (group-PointInTime members from h.0 (λ t e. why key members t (started ∙ ap ok e)) made)
          (outputs-PointInTime start rest why h.1 others))

  bucket-Completed :
      (key : ℕ) (members : List Candle) (from : ℕ)
      → bucket_start z target base cutoff calendar key members ≡ ok (some from)
      → Completed z target base cutoff calendar members from
  bucket-Completed key members from h =
      elim (Bool-cases (is_complete z target base cutoff calendar key members)) [
        | inl e ↦
            let is : key ≡ from = ground (arith, e) in
            subst (Completed z target base cutoff calendar members) is
              (bucket (ground (arith, e)) (ground (arith, e)) (ground (arith, e)))
        | inr e ↦ absurd (ground (arith, e))
      ]

  available-PointInTime :
      (ds : List Candle) {outs : List Candle}
      → All Source ds
      → aggregate_available z target base cutoff calendar ds ≡ ok outs
      → All (PointInTime z cs target cutoff base calendar) outs
  unfolding aggregate_weekly
  available-PointInTime ds {outs = outs} h is =
      elim (Bool-cases (seconds_in target == seconds_in week_1)) [
        | inl e ↦
            let weekly : aggregate_weekly z cutoff calendar ds ≡ ok outs = ground (arith, is, e) in
            let (daily, made) =
              raise_if-ok (not (is_daily z ds)) not_daily
                (outputs z week_1 (week_start z cutoff calendar) (filled (by_week z ds) []))
                weekly in
            let same : target ≡ week_1 = week_only target e in
            outputs-PointInTime (week_start z cutoff calendar) (filled (by_week z ds) [])
              (λ monday members from h'. week monday (ap seconds_in same) h')
              (filled-All Source (by_week z ds) [] (by_week-All Source z ds h) tt)
              (subst
                (λ t.
                  outputs z t (week_start z cutoff calendar) (filled (by_week z ds) []) ≡ ok outs)
                (sym same) made)
        | inr e ↦
            let placed_in = bucketed z target calendar ds in
            let made : outputs z target (bucket_start z target base cutoff calendar)
                  (filled placed_in [])
                ≡ ok outs =
              ground (arith, is, e) in
            outputs-PointInTime (bucket_start z target base cutoff calendar) (filled placed_in [])
              bucket-Completed
              (filled-All Source placed_in [] (bucketed-All Source z target calendar ds h) tt) made
      ]

all_members :
    (cs ds : List Candle) → ((c : Candle) → Memᴰ c ds → Memᴰ c cs) → All (λ c. Memᴰ c cs) ds
all_members cs [] h = tt
all_members cs (d ∷ ds) h = (h d (Memᴰ.head refl), all_members cs ds (λ c m. h c (Memᴰ.tail m)))

module _ (z : Zone) where
  -- An aggregation that returned is of no candle, or the base is the timeframe of the earliest one.
  -- Every aggregate is then made of closed candles of the source that were available by the time
  -- asked for, whose group is complete: its end has come, it has as many candles as fit between its
  -- start and its end, and they follow one another without a gap, or the rule for weeks holds. The
  -- aggregate is the group's combination, dated at the group's start, and a valid candle.
  pub aggregate-PointInTime :
      (cs : List Candle) (target : Timeframe) (t : ℕ) (sessions : Option (List MarketSession))
      {outs : List Candle}
      → aggregate_closed_candles z cs target (aware t) sessions ≡ ok outs
      → (outs ≡ [])
        ⊎ ((c : Candle) × (rest : List Candle) × (calendar : Option (List MarketSession)) × (by_time
                cs
              ≡ c ∷ rest)
            × (calendar_of z sessions ≡ ok calendar)
            × All (PointInTime z cs target t c.timeframe_seconds calendar) outs)
  unfolding aggregate_closed_candles
  aggregate-PointInTime cs target t sessions {outs = outs} h = elim (list-cases (by_time cs)) [
    | inl e ↦
        inl (sym (ok_injective (subst (λ l. aggregate_sorted z target t sessions l ≡ ok outs) e h)))
    | inr (c, rest, e) ↦
        let sorted = subst (λ l. aggregate_sorted z target t sessions l ≡ ok outs) e h in
        let base = c.timeframe_seconds in
        let size = seconds_in target in
        let (one, h1) =
          raise_if-ok (any (λ d. not (d.instrument_id == c.instrument_id)) (c ∷ rest))
            mixed_instruments _ sorted in
        let (two, h2) =
          raise_if-ok (any (λ d. not (d.timeframe_seconds == base)) (c ∷ rest)) mixed_timeframes _
            h1 in
        let (three, h3) =
          raise_if-ok (leb size base || not (size % base == 0)) not_a_multiple _ h2 in
        let (calendar, read, made) = >>=-ok (calendar_of z sessions) _ h3 in
        let members = by_time-All (λ d. Memᴰ d cs) cs (all_members cs cs (λ d m. m)) in
        let sources =
          available-Source z cs target t base calendar (c ∷ rest)
            (subst (λ l. All (λ d. Memᴰ d cs) l) e members) in
        inr (
          c,
          rest,
          calendar,
          e,
          read,
          available-PointInTime z cs target t base calendar (available z t base calendar (c ∷ rest))
              sources made,
        )
  ]
