-- ===== src/Backtesting/MonteCarlo/Shuffles.antt =====
-- A shuffle keeps its values.
use mytradingsystem.Base.{
  List, ℤ, sum_ℤ, ℕ, ◌≡◌, Option, [], get_elem?, length, map, ◌<◌, ◌∷◌, some, suc, zero, ◌-◌, arith,
  int_laws, ◌+ℤ◌, refl, ◌%◌, ◌∙◌, ◌+◌, ap, pos_part, neg_part,
}
use mytradingsystem.Backtesting.MonteCarlo.{set_at, shuffle, shuffle_loop, swap, lcg}

length-set_at : (i : ℕ) (v : ℤ) (xs : List ℤ) → length (set_at i v xs) ≡ length xs
length-set_at i v [] = refl
length-set_at zero v (x ∷ xs) = refl
length-set_at (suc i) v (x ∷ xs) = omega (arith, length-set_at i v xs)

get-set_at :
    (i j : ℕ) (x y : ℤ) (xs : List ℤ)
    → get_elem? xs i ≡ some x
    → get_elem? xs j ≡ some y
    → get_elem? (set_at i y xs) j ≡ some y
get-set_at i j x y [] h k = absurd (ground arith)
get-set_at zero zero x y (z ∷ xs) h k = refl
get-set_at zero (suc j) x y (z ∷ xs) h k = k
get-set_at (suc i) zero x y (z ∷ xs) h k = k
get-set_at (suc i) (suc j) x y (z ∷ xs) h k = get-set_at i j x y xs h k

get_in_range : (i : ℕ) (xs : List ℤ) → i < length xs → (x : ℤ) × (get_elem? xs i ≡ some x)
get_in_range i [] h = absurd (omega (arith, h))
get_in_range zero (x ∷ xs) h = (x, refl)
get_in_range (suc i) (x ∷ xs) h = get_in_range i xs (omega (arith, h))

some_value : {x y : ℤ} → ◌≡◌ {A = Option ℤ} (some x) (some y) → x ≡ y
some_value h = cc

plus_shared : (a b x y z : ℤ) → a +ℤ x ≡ b +ℤ y → (z +ℤ a) +ℤ x ≡ (z +ℤ b) +ℤ y
plus_shared a b x y z h = omega (int_laws, ap pos_part h, ap neg_part h)

cancels : (a b c x y : ℤ) → a +ℤ y ≡ b +ℤ x → b +ℤ x ≡ c +ℤ y → a ≡ c
cancels a b c x y h k = let e = h ∙ k in omega (int_laws, ap pos_part e, ap neg_part e)

module _ (f : ℤ → ℤ) where
  abbrev pub total : List ℤ → ℤ
  total xs = sum_ℤ (map f xs)

  set_at-total :
      (i : ℕ) (x y : ℤ) (xs : List ℤ)
      → get_elem? xs i ≡ some x
      → total (set_at i y xs) +ℤ f x ≡ total xs +ℤ f y
  set_at-total i x y [] h = absurd (ground arith)
  set_at-total zero x y (z ∷ xs) h = rw (some_value h) (omega int_laws)
  set_at-total (suc i) x y (z ∷ xs) h =
      plus_shared (total (set_at i y xs)) (total xs) (f x) (f y) (f z) (set_at-total i x y xs h)

  swap-total :
      (i j : ℕ) (xs : List ℤ)
      → i < length xs
      → j < length xs
      → (total (swap i j xs) ≡ total xs) × (length (swap i j xs) ≡ length xs)
  swap-total i j xs p q =
      let (x, at_i) = get_in_range i xs p in
      let (y, at_j) = get_in_range j xs q in
      let ys = set_at i y xs in
      let first = set_at-total i x y xs at_i in
      let second = set_at-total j y x ys (get-set_at i j x y xs at_i at_j) in
      (
        rw (at_i, at_j)
            (cancels (total (set_at j x ys)) (total ys) (total xs) (f x) (f y) second first),
        rw (at_i, at_j) (length-set_at j x ys ∙ length-set_at i y xs),
      )

  loop-total :
      (i : ℕ) (xs : List ℤ) (state : ℕ)
      → i < length xs
      → total (shuffle_loop i xs state).0 ≡ total xs
  unfolding shuffle_loop
  loop-total zero xs state h = refl
  loop-total (suc i) xs state h =
      let j = lcg state % (suc i + 1) in
      let (same, long) = swap-total (suc i) j xs h (omega (arith, h)) in
      loop-total i (swap (suc i) j xs) (lcg state) (omega (arith, h, long)) ∙ same

  -- Whatever a function gives for the values of a list, its sum over a shuffled list is that over the
  -- list: with the function that tells one value from the others, each value is there as often.
  pub total-shuffle : (xs : List ℤ) (state : ℕ) → total (shuffle xs state).0 ≡ total xs
  unfolding shuffle shuffle_loop
  total-shuffle [] state = refl
  total-shuffle (x ∷ xs) state = loop-total (length (x ∷ xs) - 1) (x ∷ xs) state (omega arith)
