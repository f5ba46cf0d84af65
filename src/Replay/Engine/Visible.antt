-- ===== src/Replay/Engine/Visible.antt =====
-- What a replay engine shows: always a prefix of its candles, and after a seek exactly the candles
-- that were complete at that time.
use mytradingsystem.Replay.Engine.Prefix.{IsValid}
use mytradingsystem.Replay.Engine.Bisect.{
  Ascending, count_le, bisect_right-eq, bisect_right, count_le-length,
}
use mytradingsystem.Replay.Engine.{
  restore, seek, step, Checkpoint, checkpoint, snapshot, Engine, closes_at, is_complete,
}
use mytradingsystem.Base.{
  List, ℕ, [], get_elem?, ◌<◌, ◌∷◌, All, if◌then◌else◌, length, map, ◌≡◌, leb, some, ◌≤◌, aware, ok,
  suc, take, zero, ◌++◌, ap, arith, eq_iff, refl, ◌∙◌, subst, false, ◌+◌,
}
use mytradingsystem.Domain.{Candle}
use native.Mathlib.Numerals.{add-one}

get_elem?-map :
    (f : Candle → ℕ) (cs : List Candle) (i : ℕ) {c : Candle}
    → get_elem? cs i ≡ some c
    → get_elem? (map f cs) i ≡ some (f c)
get_elem?-map f [] i h = cc
get_elem?-map f (d ∷ ds) zero h = cc
get_elem?-map f (d ∷ ds) (suc i) h = get_elem?-map f ds i h

get_elem?-in : (cs : List Candle) (i : ℕ) → i < length cs → (c : Candle) × (get_elem? cs i ≡ some c)
get_elem?-in [] i h = elim h [ ]
get_elem?-in (d ∷ ds) zero h = (d, refl)
get_elem?-in (d ∷ ds) (suc i) h = get_elem?-in ds i (omega arith)

take_snoc :
    (cs : List Candle) (i : ℕ) {c : Candle}
    → get_elem? cs i ≡ some c
    → take (suc i) cs ≡ take i cs ++ c ∷ []
take_snoc [] i h = cc
take_snoc (d ∷ ds) zero h = cc
take_snoc (d ∷ ds) (suc i) h = ap (λ x. d ∷ x) (take_snoc ds i h)

pub move-IsValid :
    (e : Engine) (n : ℕ) → IsValid e → n ≤ length e.candles → IsValid (record e { next_index = n })
move-IsValid e n v h = record {
  in_range = h;
  available = v.available;
  ascending = v.ascending;
  closed = v.closed;
}

length-map : (f : Candle → ℕ) (cs : List Candle) → length (map f cs) ≡ length cs
length-map f [] = refl
length-map f (c ∷ cs) = ap suc (length-map f cs)

available_length : (e : Engine) → IsValid e → length e.available_at ≡ length e.candles
available_length e v = ap length v.available ∙ length-map closes_at e.candles

-- Before its end the engine emits the next candle, with the time from which it is known and its
-- place, and the snapshot grows by that candle alone.
pub step_emits :
    (e : Engine)
    → IsValid e
    → e.next_index < length e.candles
    → (c : Candle) × (get_elem? e.candles e.next_index ≡ some c)
      × ((step e).0
          ≡ some (record {
            candle = c;
            available_at = closes_at c;
            index = e.next_index;
            total = length e.candles;
          }))
      × (snapshot (step e).1 ≡ snapshot e ++ c ∷ [])
      × IsValid (step e).1
unfolding step snapshot
step_emits e v lt =
    let (c, q) = get_elem?-in e.candles e.next_index lt in
    let t : get_elem? e.available_at e.next_index ≡ some (closes_at c) =
      ap (λ l. get_elem? l e.next_index) v.available
      ∙ get_elem?-map closes_at e.candles e.next_index q in
    let going : is_complete e ≡ false = ground arith in
    (
      c,
      q,
      rw (going, q, t),
      rw (going, add-one) (take_snoc e.candles e.next_index q),
      rw going (move-IsValid e (e.next_index + 1) v (omega arith)),
    )

-- The candles that were complete at a time.
abbrev pub known_at : ℕ → List Candle → List Candle
known_at t [] = []
known_at t (c ∷ cs) = let rest = known_at t cs in if leb (closes_at c) t then c ∷ rest else rest

known_at-none :
    (t x : ℕ) (cs : List Candle)
    → t < x
    → All (λ y. x ≤ y) (map closes_at cs)
    → (known_at t cs ≡ []) × (count_le t (map closes_at cs) ≡ 0)
known_at-none t x [] h a = (refl, refl)
known_at-none t x (c ∷ cs) h a = ground (arith, known_at-none t x cs h a.1)

take-known_at :
    (t : ℕ) (cs : List Candle)
    → Ascending (map closes_at cs)
    → take (count_le t (map closes_at cs)) cs ≡ known_at t cs
take-known_at t [] a = refl
take-known_at t (c ∷ cs) a =
    ground (arith, take-known_at t cs a.1, known_at-none t (closes_at c) cs)

-- A seek shows the candles that were complete at its time and no others, whatever was shown before,
-- and leaves the engine valid.
pub seek_shows_known :
    (e : Engine) (t : ℕ)
    → IsValid e
    → ((seek (aware t) e).0 ≡ ok (known_at t e.candles))
      × (snapshot (seek (aware t) e).1 ≡ known_at t e.candles)
      × IsValid (seek (aware t) e).1
unfolding seek snapshot
seek_shows_known e t v =
    let found = bisect_right-eq e.available_at t v.ascending in
    let shown : take (bisect_right e.available_at t) e.candles ≡ known_at t e.candles =
      ap (λ n. take n e.candles) (found ∙ ap (count_le t) v.available)
      ∙ take-known_at t e.candles (subst Ascending v.available v.ascending) in
    (
      ap ok shown,
      shown,
      move-IsValid e (bisect_right e.available_at t) v
          (rw found (omega (arith, count_le-length t e.available_at, available_length e v))),
    )

-- A checkpoint of an engine, restored in an engine over the same candles, gives the engine back.
pub restore-checkpoint :
    (e f : Engine)
    → IsValid e
    → f.candles ≡ e.candles
    → f.available_at ≡ e.available_at
    → f.dataset_sha256 ≡ e.dataset_sha256
    → restore (checkpoint e) f ≡ ok e
unfolding restore checkpoint
restore-checkpoint e f v c a d =
    ground (arith, eq_iff e.dataset_sha256 f.dataset_sha256, v.in_range)

-- What a restore accepts: the same dataset, and an index within it.
pub restore-IsValid :
    (k : Checkpoint) (e : Engine) {f : Engine}
    → IsValid e
    → restore k e ≡ ok f
    → IsValid f × (k.dataset_sha256 ≡ e.dataset_sha256) × (f.next_index ≡ k.next_index)
unfolding restore
restore-IsValid k e {f} v h =
    let eq : record e { next_index = k.next_index } ≡ f = ground arith in
    let fits : k.next_index ≤ length e.candles = ground arith in
    (
      subst IsValid eq (move-IsValid e k.next_index v fits),
      ground (arith, eq_iff k.dataset_sha256 e.dataset_sha256),
      ground arith,
    )
