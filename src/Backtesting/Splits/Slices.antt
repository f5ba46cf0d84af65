-- ===== src/Backtesting/Splits/Slices.antt =====
-- Slices that follow one another.
use mytradingsystem.Backtesting.Splits.{slice}
use mytradingsystem.Base.{
  List, ℕ, drop, length, take, ◌≤◌, ◌++◌, ◌≡◌, [], suc, zero, ◌+◌, ◌-◌, ◌∷◌, ap, arith, length-take,
  refl, sym, ◌∙◌,
}

module _ {ℓ} {T : Type ℓ} where
  take_nil : (n : ℕ) → take {A = T} n [] ≡ []
  take_nil zero = refl
  take_nil (suc n) = refl

  drop_nil : (n : ℕ) → drop {A = T} n [] ≡ []
  drop_nil zero = refl
  drop_nil (suc n) = refl

  take-drop_part : (n k : ℕ) (xs : List T) → take n xs ++ take k (drop n xs) ≡ take (n + k) xs
  take-drop_part zero k xs = let same : zero + k ≡ k = omega arith in rw same refl
  take-drop_part (suc n) k [] = take_nil k ∙ sym (take_nil (suc n + k))
  take-drop_part (suc n) k (x ∷ xs) =
      let same : suc n + k ≡ suc (n + k) = omega arith in
      rw (same, sym (take-drop_part n k xs)) refl

  drop-drop : (n k : ℕ) (xs : List T) → drop k (drop n xs) ≡ drop (n + k) xs
  drop-drop zero k xs = let same : zero + k ≡ k = omega arith in rw same refl
  drop-drop (suc n) k [] = drop_nil k ∙ sym (drop_nil (suc n + k))
  drop-drop (suc n) k (x ∷ xs) =
      let same : suc n + k ≡ suc (n + k) = omega arith in rw same (drop-drop n k xs)

  take-drop : (n : ℕ) (xs : List T) → take n xs ++ drop n xs ≡ xs
  take-drop zero xs = refl
  take-drop (suc n) [] = refl
  take-drop (suc n) (x ∷ xs) = ap (λ ys. x ∷ ys) (take-drop n xs)

  pub slice-slice :
      (i j k : ℕ) (xs : List T) → i ≤ j → j ≤ k → slice i j xs ++ slice j k xs ≡ slice i k xs
  slice-slice i j k xs p q =
      let whole : i + (j - i) ≡ j = omega (arith, p) in
      let parts : (j - i) + (k - j) ≡ k - i = omega (arith, p, q) in
      let at : drop j xs ≡ drop (j - i) (drop i xs) =
        ap (λ n. drop n xs) (sym whole) ∙ sym (drop-drop i (j - i) xs) in
      ap (λ ys. slice i j xs ++ take (k - j) ys) at
      ∙ take-drop_part (j - i) (k - j) (drop i xs)
      ∙ ap (λ n. take n (drop i xs)) parts

  pub slice-rest : (i j : ℕ) (xs : List T) → i ≤ j → slice i j xs ++ drop j xs ≡ drop i xs
  slice-rest i j xs p =
      let whole : i + (j - i) ≡ j = omega (arith, p) in
      let at : drop j xs ≡ drop (j - i) (drop i xs) =
        ap (λ n. drop n xs) (sym whole) ∙ sym (drop-drop i (j - i) xs) in
      ap (λ ys. slice i j xs ++ ys) at ∙ take-drop (j - i) (drop i xs)

  pub length-drop : (n : ℕ) (xs : List T) → length (drop n xs) ≡ length xs - n
  length-drop zero xs = omega arith
  length-drop (suc n) [] = omega arith
  length-drop (suc n) (x ∷ xs) = omega (arith, length-drop n xs)

  pub length-slice : (i j : ℕ) (xs : List T) → j ≤ length xs → length (slice i j xs) ≡ j - i
  length-slice i j xs h = omega (arith, length-take (j - i) (drop i xs), length-drop i xs, h)
