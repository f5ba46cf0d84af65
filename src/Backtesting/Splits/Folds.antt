-- ===== src/Backtesting/Splits/Folds.antt =====
-- The partitions follow one another, and the folds are all that fit.
use mytradingsystem.Backtesting.Splits.Slices.{slice-slice, length-slice, length-drop, slice-rest}
use mytradingsystem.Backtesting.Splits.{
  Split, Windows, walk, split_at, Fold, test_end, train_start, slice, fold_at, train_end,
  validation_end, walk_forward_folds, SplitError, chronological_split, share_of, some_folds,
  step_or, windows,
}
use mytradingsystem.Base.{
  List, ℤ, ℕ, ◌++◌, [], ◌<◌, ◌∷◌, ◌≡◌, length, map, ok, suc, zero, ◌≤◌, ◌+◌, arith, ◌-◌, ◌↔◌,
  Bool-cases, ap, ◌*◌, ltb, inl, inr, ◌∙◌, refl, false, pos_part, drop, All, Arithmetic, Result,
  subst, Bool, pos, ◌+ℤ◌, Option, leb_ℤ, min_ℤ,
}

-- No value is lost or moved, and no partition is empty.
pub record IsPartition {ℓ} {T : Type ℓ} (s : Split T) (xs : List T) : Type ℓ where
  pub joined : s.train ++ s.validation ++ s.test ≡ xs
  pub has_train : 0 < length s.train
  pub has_validation : 0 < length s.validation
  pub has_test : 0 < length s.test

start_le : (w : Windows) (offset : ℕ) → train_start w offset ≤ train_end w offset
start_le w offset = ground arith

-- The offsets of `count` folds from one on.
abbrev pub offsets : Windows → ℕ → ℕ → List ℕ
offsets w offset zero = []
offsets w offset (suc count) = offset ∷ offsets w (offset + w.step_size) count

module _ {ℓ} {T : Type ℓ} where
  split_at-IsPartition :
      (i j : ℤ) (xs : List T) {s : Split T} → split_at i j xs ≡ ok s → IsPartition s xs
  split_at-IsPartition i j xs {s = s} h =
      let i' = pos_part i in
      let j' = pos_part j in
      let first : 0 < i' = ground arith in
      let second : i' < j' = ground arith in
      let third : j' < length xs = ground arith in
      let train_long = length-slice 0 i' xs (omega (arith, second, third)) in
      let validation_long = length-slice i' j' xs (omega (arith, third)) in
      let test_long = length-drop j' xs in
      let parts : Split T = record {
        train = slice 0 i' xs;
        validation = slice i' j' xs;
        test = drop j' xs;
      } in
      let is : parts ≡ s = ground arith in
      subst (λ r. IsPartition r xs) is
        (record {
          joined =
              ap (λ ys. ys ++ drop j' xs)
                (slice-slice 0 i' j' xs (omega arith) (omega (arith, second)))
              ∙ slice-rest 0 j' xs (omega arith);
          has_train = omega (arith, train_long, first);
          has_validation = omega (arith, validation_long, second);
          has_test = omega (arith, test_long, third);
        })

  -- A fold's parts have the sizes asked for and follow one another without a gap from the start of
  -- its training part to the end of its test part.
  pub record Follows (w : Windows) (xs : List T) (offset : ℕ) (f : Fold T) : Type ℓ where
    pub joined :
        f.fold_train ++ f.fold_validation ++ f.fold_test
        ≡ slice (train_start w offset) (test_end w offset) xs
    pub train_long : length f.fold_train ≡ train_end w offset - train_start w offset
    pub validation_long : length f.fold_validation ≡ w.validation_size
    pub test_long : length f.fold_test ≡ w.test_size

  fold-Follows :
      (w : Windows) (xs : List T) (offset : ℕ)
      → test_end w offset ≤ length xs
      → Follows w xs offset (fold_at w xs offset)
  fold-Follows w xs offset h =
      let start = train_start w offset in
      let i = train_end w offset in
      let j = validation_end w offset in
      let k = test_end w offset in
      let below = start_le w offset in
      record {
        joined =
            ap (λ ys. ys ++ slice j k xs) (slice-slice start i j xs below (omega arith))
            ∙ slice-slice start j k xs (omega (arith, below)) (omega arith);
        train_long = length-slice start i xs (omega (arith, h));
        validation_long = omega (arith, length-slice i j xs (omega (arith, h)));
        test_long = omega (arith, length-slice j k xs h);
      }

  -- So many folds, no more and no fewer, fit from an offset on.
  record Fits (w : Windows) (xs : List T) (offset fuel count : ℕ) : Type ℓ where
    folds : walk w xs fuel offset ≡ map (fold_at w xs) (offsets w offset count)
    each : (k : ℕ) → k < count ↔ test_end w (offset + k * w.step_size) ≤ length xs

  more_fit :
      (w : Windows) (xs : List T) (offset fuel count : ℕ)
      → Fits w xs (offset + w.step_size) fuel count
      → ltb (length xs) (test_end w offset) ≡ false
      → (k : ℕ) → k < suc count ↔ test_end w (offset + k * w.step_size) ≤ length xs
  more_fit w xs offset fuel count f fits zero = (λ h. ground (arith, fits), λ h. omega arith)
  more_fit w xs offset fuel count f fits (suc k) =
      let (there, back) = f.each k in
      let next : suc k * w.step_size ≡ w.step_size + k * w.step_size = omega arith in
      (
        λ h. omega (arith, there (omega (arith, h))),
        λ h. omega (arith, back (omega (arith, h, next))),
      )

  walk-Fits :
      (w : Windows) (xs : List T) (offset fuel : ℕ)
      → 0 < w.step_size
      → length xs < fuel + offset
      → (count : ℕ) × Fits w xs offset fuel count
  unfolding walk
  walk-Fits w xs offset zero positive enough = (
    0,
    record {
      folds = refl;
      each = λ k. (λ h. absurd (omega (arith, h)), λ h. absurd (omega (arith, h, enough)));
    },
  )
  walk-Fits w xs offset (suc fuel) positive enough =
      let (count, f) =
        walk-Fits w xs (offset + w.step_size) fuel positive (omega (arith, positive, enough)) in
      elim (Bool-cases (ltb (length xs) (test_end w offset))) [
        | inl past ↦ (
          0,
          record {
            folds = ground (arith, past);
            each = λ k. (λ h. absurd (omega (arith, h)), λ h. absurd (ground (arith, past, h)));
          },
        )
        | inr fits ↦ (
          suc count,
          record {
            folds = ground (arith, fits, f.folds);
            each = more_fit w xs offset fuel count f fits;
          },
        )
      ]

module _ {ℓ} {T : Type ℓ} (a : Arithmetic) where
  -- A split that returned has three partitions, none of them empty, which joined in their order are
  -- the values: nothing is shuffled, dropped or in two partitions.
  pub chronological_split-IsPartition :
      (xs : List T) (t v : ℤ) {s : Split T} → chronological_split a xs t v ≡ ok s → IsPartition s xs
  unfolding chronological_split
  chronological_split-IsPartition xs t v h =
      let i = share_of a (length xs) t in
      let j = i +ℤ share_of a (length xs) v in
      let is : split_at i j xs ≡ ok _ = ground (arith, h) in split_at-IsPartition i j xs is

module _ {ℓ} {T : Type ℓ} where
  -- What a walk forward with given sizes leads to.
  pub record Walked (w : Windows) (xs : List T) (result : Result SplitError (List (Fold T)))
      : Type ℓ where
    pub count : ℕ
    pub each_fits : (k : ℕ) → k < count ↔ test_end w (0 + k * w.step_size) ≤ length xs
    pub folds : result ≡ some_folds (map (fold_at w xs) (offsets w 0 count))
    pub in_order : All (λ o. Follows w xs o (fold_at w xs o)) (offsets w 0 count)

  offsets-Follows :
      (w : Windows) (xs : List T) (offset count : ℕ)
      → ((k : ℕ) → k < count → test_end w (offset + k * w.step_size) ≤ length xs)
      → All (λ o. Follows w xs o (fold_at w xs o)) (offsets w offset count)
  offsets-Follows w xs offset zero h = tt
  offsets-Follows w xs offset (suc count) h =
      let later : (k : ℕ)
          → k < count
          → test_end w (offset + w.step_size + k * w.step_size) ≤ length xs =
        λ k lt. omega (arith, h (suc k) (omega (arith, lt))) in
      (
        fold-Follows w xs offset (omega (arith, h 0 (omega arith))),
        offsets-Follows w xs (offset + w.step_size) count later,
      )

  -- A walk forward with positive sizes ends, whatever the sizes and the number of values are: its
  -- folds are those at the multiples of the step whose windows fit, all of them, with an error where
  -- none fits; in each fold the validation values come directly after the training values, and the
  -- test values directly after those.
  pub walk_forward-Walked :
      (xs : List T) (t v u s : ℕ) (step : Option ℤ) (expanding : Bool)
      → 0 < t
      → 0 < v
      → 0 < u
      → 0 < s
      → step_or step (pos u) ≡ pos s
      → Walked
          (windows t v u s expanding)
          xs
          (walk_forward_folds xs (pos t) (pos v) (pos u) step expanding)
  unfolding walk_forward_folds
  walk_forward-Walked xs t v u s step expanding pt pv pu ps is =
      let w = windows t v u s expanding in
      let (count, f) = walk-Fits w xs 0 (suc (length xs)) ps (omega arith) in
      let sizes : leb_ℤ (min_ℤ (min_ℤ (pos t) (pos v)) (pos u)) (pos 0) ≡ false =
        ground (arith, pt, pv, pu) in
      let moves : leb_ℤ (pos s) (pos 0) ≡ false = ground (arith, ps) in
      record {
        count = count;
        each_fits = f.each;
        folds = rw (sizes, is, moves, f.folds) refl;
        in_order = offsets-Follows w xs 0 count (λ k. (f.each k).0);
      }
