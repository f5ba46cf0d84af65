-- ===== src/Backtesting/Splits.antt =====
-- packages/backtesting/validation.py: `chronological_split` and `walk_forward_folds`. A walk-forward
-- window is in natural numbers once the sizes have passed the tests.
pub mod Slices
pub mod Folds
mod Tests
use mytradingsystem.Base.{
  List, Arithmetic, Option, Result, ℕ, ℤ, Bool, [], err, if◌then◌else◌, none, ok, pos, some, take,
  ◌+◌, ◌>>=◌, ◌>>◌, ◌∷◌, ltb_ℤ, raise_if, suc, zero, ◌-◌, ◌==ℤ◌, drop, is_empty, leb_ℤ, ltb, ◌||◌,
  length, min_ℤ, ◌+ℤ◌, pos_part,
}

-- Python's `values[start:end]`, and `values[start:]`, of places that are not negative.
abbrev pub slice {ℓ} : {T : Type ℓ} → ℕ → ℕ → List T → List T
slice start end xs = take (end - start) (drop start xs)

pub data SplitError : Type 0 where
  no_observations fraction_not_positive fractions_too_large empty_partition : SplitError
  size_not_positive step_not_positive too_few_observations : SplitError

-- `ChronologicalSplit`
pub record Split {ℓ} (T : Type ℓ) : Type ℓ where
  pub train : List T
  pub validation : List T
  pub test : List T

-- `WalkForwardFold`
pub record Fold {ℓ} (T : Type ℓ) : Type ℓ where
  pub fold_train : List T
  pub fold_validation : List T
  pub fold_test : List T

-- The ends of the first two partitions are given.
abbrev pub split_at {ℓ} : {T : Type ℓ} → ℤ → ℤ → List T → Result SplitError (Split T)
split_at train_end validation_end xs =
    if ltb_ℤ train_end (pos 1)
      || leb_ℤ validation_end train_end
      || leb_ℤ (pos (length xs)) validation_end
    then err empty_partition
    else ok (record {
      train = slice 0 (pos_part train_end) xs;
      validation = slice (pos_part train_end) (pos_part validation_end) xs;
      test = drop (pos_part validation_end) xs;
    })

-- `int(Decimal(len(values)) * fraction)`
abbrev pub share_of : Arithmetic → ℕ → ℤ → ℤ
share_of a n fraction = a.truncate (a.mul (a.whole (pos n)) fraction)

unfoldable pub chronological_split {ℓ} :
    {T : Type ℓ} → Arithmetic → List T → ℤ → ℤ → Result SplitError (Split T)
chronological_split a xs train_fraction validation_fraction = do
  raise_if (is_empty xs) no_observations
  raise_if (leb_ℤ train_fraction (pos 0) || leb_ℤ validation_fraction (pos 0)) fraction_not_positive
  raise_if (leb_ℤ (a.whole (pos 1)) (train_fraction +ℤ validation_fraction)) fractions_too_large
  let n = length xs in
      let train_end = share_of a n train_fraction in
      split_at train_end (train_end +ℤ share_of a n validation_fraction) xs

-- The sizes of `walk_forward_folds`.
pub record Windows : Type 0 where
  pub train_size : ℕ
  pub validation_size : ℕ
  pub test_size : ℕ
  pub step_size : ℕ
  pub expanding : Bool

abbrev pub windows : ℕ → ℕ → ℕ → ℕ → Bool → Windows
windows train validation test step expanding = record {
  train_size = train;
  validation_size = validation;
  test_size = test;
  step_size = step;
  expanding = expanding;
}

abbrev pub train_start : Windows → ℕ → ℕ
train_start w offset = if w.expanding then 0 else offset

abbrev pub train_end : Windows → ℕ → ℕ
train_end w offset = offset + w.train_size

abbrev pub validation_end : Windows → ℕ → ℕ
validation_end w offset = train_end w offset + w.validation_size

abbrev pub test_end : Windows → ℕ → ℕ
test_end w offset = validation_end w offset + w.test_size

-- `step_size or test_size`
abbrev pub step_or : Option ℤ → ℤ → ℤ
step_or none test_size = test_size
step_or (some step) test_size = if step ==ℤ pos 0 then test_size else step

module _ {ℓ} {T : Type ℓ} where
  abbrev pub fold_at : Windows → List T → ℕ → Fold T
  fold_at w xs offset = record {
    fold_train = slice (train_start w offset) (train_end w offset) xs;
    fold_validation = slice (train_end w offset) (validation_end w offset) xs;
    fold_test = slice (validation_end w offset) (test_end w offset) xs;
  }

  -- The loop, on fuel.
  unfoldable pub walk : Windows → List T → ℕ → ℕ → List (Fold T)
  walk w xs zero offset = []
  walk w xs (suc fuel) offset =
      let rest = walk w xs fuel (offset + w.step_size) in
      if ltb (length xs) (test_end w offset) then [] else fold_at w xs offset ∷ rest

  abbrev pub some_folds : List (Fold T) → Result SplitError (List (Fold T))
  some_folds [] = err too_few_observations
  some_folds (f ∷ fs) = ok (f ∷ fs)

  unfoldable pub walk_forward_folds :
      List T → ℤ → ℤ → ℤ → Option ℤ → Bool → Result SplitError (List (Fold T))
  walk_forward_folds xs train validation test step expanding = do
    raise_if (leb_ℤ (min_ℤ (min_ℤ train validation) test) (pos 0)) size_not_positive
    raise_if (leb_ℤ (step_or step test) (pos 0)) step_not_positive
    let w =
          windows (pos_part train) (pos_part validation) (pos_part test)
            (pos_part (step_or step test)) expanding in
        some_folds (walk w xs (suc (length xs)) 0)
