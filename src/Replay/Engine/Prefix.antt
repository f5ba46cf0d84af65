-- ===== src/Replay/Engine/Prefix.antt =====
-- The validity of an engine, and that the constructor establishes it.
use mytradingsystem.Replay.Engine.Bisect.{Ascending}
use mytradingsystem.Base.{
  List, ℕ, any, ◌≤◌, All, [], length, not, ◌∷◌, ◌≡◌, Bool-cases, arith, false, map, ok, true, leb,
  refl, subst, inl, inr, sym, leb→le, ◌∙◌, ap,
}
use mytradingsystem.Replay.Engine.{
  Engine, replay_engine, Digest, first_differs, same_list, insert_sorted, sorted, stream_differs,
  closes_at,
}
use mytradingsystem.Domain.{Candle}

-- A valid engine: what the constructor establishes and every operation keeps.
pub record IsValid (e : Engine) : Type 0 where
  pub in_range : e.next_index ≤ length e.candles
  pub available : e.available_at ≡ map closes_at e.candles
  pub ascending : Ascending e.available_at
  pub closed : All (λ c. c.is_closed ≡ true) e.candles

insert_sorted-All :
    (y x : ℕ) (xs : List ℕ) → y ≤ x → All (λ z. y ≤ z) xs → All (λ z. y ≤ z) (insert_sorted x xs)
insert_sorted-All y x [] h a = (h, tt)
insert_sorted-All y x (z ∷ zs) h a = elim (Bool-cases (leb x z)) [
  | inl p ↦ rw p (h, a)
  | inr p ↦ rw p (a.0, insert_sorted-All y x zs h a.1)
]

All-le_trans : (x y : ℕ) (xs : List ℕ) → x ≤ y → All (λ z. y ≤ z) xs → All (λ z. x ≤ z) xs
All-le_trans x y [] h a = tt
All-le_trans x y (z ∷ zs) h a = (omega (arith, a.0), All-le_trans x y zs h a.1)

insert_sorted-Ascending : (x : ℕ) (xs : List ℕ) → Ascending xs → Ascending (insert_sorted x xs)
insert_sorted-Ascending x [] a = (tt, tt)
insert_sorted-Ascending x (y ∷ ys) a = elim (Bool-cases (leb x y)) [
  | inl p ↦ rw p ((leb→le x y p, All-le_trans x y ys (leb→le x y p) a.0), a)
  | inr p ↦ rw p (insert_sorted-All y x ys (ground arith) a.0, insert_sorted-Ascending x ys a.1)
]

sorted-Ascending : (xs : List ℕ) → Ascending (sorted xs)
sorted-Ascending [] = tt
sorted-Ascending (x ∷ xs) = insert_sorted-Ascending x (sorted xs) (sorted-Ascending xs)

same_list-eq : (xs ys : List ℕ) → same_list xs ys ≡ true → xs ≡ ys
same_list-eq [] [] h = refl
same_list-eq [] (y ∷ ys) h = cc
same_list-eq (x ∷ xs) [] h = cc
same_list-eq (x ∷ xs) (y ∷ ys) h = ground (arith, same_list-eq xs ys)

-- With one timeframe the candles become available in the order of their timestamps.
closes-All :
    (c : Candle) (cs : List Candle)
    → any (stream_differs c) cs ≡ false
    → All (λ y. c.timestamp ≤ y) (map (λ d. d.timestamp) cs)
    → All (λ y. closes_at c ≤ y) (map closes_at cs)
closes-All c [] h a = tt
closes-All c (d ∷ ds) h a =
    let same : c.timeframe_seconds ≡ d.timeframe_seconds = ground arith in
    (rw same (omega (arith, a.0)), closes-All c ds (ground arith) a.1)

first_differs-tail :
    (c d : Candle) (ds : List Candle)
    → first_differs (c ∷ d ∷ ds) ≡ false
    → first_differs (d ∷ ds) ≡ false
first_differs-tail c d [] h = refl
first_differs-tail c d (x ∷ xs) h = ground (arith, first_differs-tail c d xs)

closes-Ascending :
    (cs : List Candle)
    → first_differs cs ≡ false
    → Ascending (map (λ d. d.timestamp) cs)
    → Ascending (map closes_at cs)
closes-Ascending [] h a = tt
closes-Ascending (c ∷ []) h a = (tt, tt)
closes-Ascending (c ∷ d ∷ ds) h a =
    (closes-All c (d ∷ ds) h a.0, closes-Ascending (d ∷ ds) (first_differs-tail c d ds h) a.1)

All-closed :
    (cs : List Candle) → any (λ c. not c.is_closed) cs ≡ false → All (λ c. c.is_closed ≡ true) cs
All-closed [] h = tt
All-closed (c ∷ cs) h = (ground arith, All-closed cs (ground arith))

-- An engine that the constructor returns is valid and at its start.
pub replay_engine-IsValid :
    (d : Digest) (cs : List Candle) {e : Engine}
    → replay_engine d cs ≡ ok e
    → IsValid e × (e.candles ≡ cs) × (e.next_index ≡ 0)
unfolding replay_engine
replay_engine-IsValid d cs {e} h =
    let open_ : any (λ c. not c.is_closed) cs ≡ false = ground arith in
    let one : first_differs cs ≡ false = ground arith in
    let order : same_list (map (λ c. c.timestamp) cs) (sorted (map (λ c. c.timestamp) cs)) ≡ true =
      ground arith in
    let asc : Ascending (map (λ c. c.timestamp) cs) =
      subst Ascending (sym (same_list-eq _ _ order))
        (sorted-Ascending (map (λ c. c.timestamp) cs)) in
    let cs_eq : e.candles ≡ cs = ground arith in
    let av_eq : e.available_at ≡ map closes_at cs = ground arith in
    let zero_next : e.next_index ≡ 0 = ground arith in
    (
      record {
        in_range = omega arith;
        available = av_eq ∙ ap (map closes_at) (sym cs_eq);
        ascending = subst Ascending (sym av_eq) (closes-Ascending cs one asc);
        closed = subst (All (λ c. c.is_closed ≡ true)) (sym cs_eq) (All-closed cs open_);
      },
      cs_eq,
      zero_next,
    )
