-- ===== src/MarketData/Aggregation/Members.antt =====
-- What holds of the candles holds of the members of their groups.
use mytradingsystem.Base.{
  List, ℕ, All, [], ◌++◌, ◌∷◌, Bool-cases, Option, leb, ◌==◌, Option-cases, inl, inr, ltb,
}
use mytradingsystem.Domain.{Candle}
use mytradingsystem.MarketData.Grouping.{
  insert_candle, Zone, add_member, filled, Timeframe, by_time, MarketSession,
}
use mytradingsystem.MarketData.Aggregation.{bucketed, by_week, bucket_of}

module _ (P : Candle → Type 0) where
  abbrev pub AllMembers : List (ℕ × List Candle) → Type 0
  AllMembers groups = All (λ g. All P g.1) groups

  abbrev pub AllPlaced : List (ℕ × Candle) → Type 0
  AllPlaced ps = All (λ p. P p.1) ps

  insert_candle-All : (c : Candle) (cs : List Candle) → P c → All P cs → All P (insert_candle c cs)
  insert_candle-All c [] p h = (p, tt)
  insert_candle-All c (d ∷ ds) p h = elim (Bool-cases (leb c.timestamp d.timestamp)) [
    | inl e ↦ rw e (p, h)
    | inr e ↦ rw e (h.0, insert_candle-All c ds p h.1)
  ]

  pub by_time-All : (cs : List Candle) → All P cs → All P (by_time cs)
  by_time-All [] h = tt
  by_time-All (c ∷ cs) h = insert_candle-All c (by_time cs) h.0 (by_time-All cs h.1)

  members-snoc : (cs : List Candle) (c : Candle) → All P cs → P c → All P (cs ++ c ∷ [])
  members-snoc [] c h p = (p, tt)
  members-snoc (d ∷ ds) c h p = (h.0, members-snoc ds c h.1 p)

  add_member-All :
      (key : ℕ) (c : Candle) (groups : List (ℕ × List Candle))
      → P c
      → AllMembers groups
      → AllMembers (add_member key c groups)
  add_member-All key c [] p h = ((p, tt), tt)
  add_member-All key c ((k, cs) ∷ rest) p h = elim (Bool-cases (key == k)) [
    | inl e ↦ rw e (members-snoc cs c h.0 p, h.1)
    | inr e ↦ elim (Bool-cases (ltb key k)) [
      | inl q ↦ rw (e, q) ((p, tt), h)
      | inr q ↦ rw (e, q) (h.0, add_member-All key c rest p h.1)
    ]
  ]

  pub filled-All :
      (ps : List (ℕ × Candle)) (groups : List (ℕ × List Candle))
      → AllPlaced ps
      → AllMembers groups
      → AllMembers (filled ps groups)
  filled-All [] groups h k = k
  filled-All ((key, c) ∷ ps) groups h k =
      filled-All ps (add_member key c groups) h.1 (add_member-All key c groups h.0 k)

  module _ (z : Zone) where
    pub bucketed-All :
        (target : Timeframe) (calendar : Option (List MarketSession)) (cs : List Candle)
        → All P cs
        → AllPlaced (bucketed z target calendar cs)
    bucketed-All target calendar [] h = tt
    bucketed-All target calendar (c ∷ cs) h = elim (Option-cases (bucket_of z target calendar c)) [
      | inl e ↦ rw e (bucketed-All target calendar cs h.1)
      | inr (b, e) ↦ rw e (h.0, bucketed-All target calendar cs h.1)
    ]

    pub by_week-All : (cs : List Candle) → All P cs → AllPlaced (by_week z cs)
    by_week-All [] h = tt
    by_week-All (c ∷ cs) h = (h.0, by_week-All cs h.1)
