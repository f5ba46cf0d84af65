-- ===== src/Backtesting/Splits/Tests.antt =====
-- Splits and folds of ten values, and the theorems at them.
use mytradingsystem.Base.{
  List, ℕ, [], ◌+ℤ◌, ◌∷◌, hundredths, pos, false, none, ◌≡◌, err, ok, arith, refl,
}
use mytradingsystem.Backtesting.Splits.{
  chronological_split, Split, Windows, walk_forward_folds, walk, windows, fold_at,
  too_few_observations,
}
use mytradingsystem.Backtesting.Splits.Folds.{
  IsPartition, Walked, chronological_split-IsPartition, walk_forward-Walked,
}

abbrev ten : List ℕ
ten = 0 ∷ 1 ∷ 2 ∷ 3 ∷ 4 ∷ 5 ∷ 6 ∷ 7 ∷ 8 ∷ 9 ∷ []

abbrev parts : Split ℕ
parts = record { train = 0 ∷ 1 ∷ 2 ∷ 3 ∷ 4 ∷ 5 ∷ []; validation = 6 ∷ 7 ∷ []; test = 8 ∷ 9 ∷ [] }

splits : chronological_split hundredths ten (pos 60) (pos 20) ≡ ok parts
unfolding chronological_split ◌+ℤ◌
splits = refl

chronological_split-IsPartition_example : IsPartition parts ten
chronological_split-IsPartition_example =
    chronological_split-IsPartition hundredths ten (pos 60) (pos 20) splits

abbrev windows_of_test : Windows
windows_of_test = windows 4 2 2 2 false

last_fold :
    walk_forward_folds ten (pos 4) (pos 2) (pos 2) none false
    ≡ ok (fold_at windows_of_test ten 0 ∷ fold_at windows_of_test ten 2 ∷ [])
unfolding walk_forward_folds walk
last_fold = refl

too_few : walk_forward_folds ten (pos 8) (pos 2) (pos 2) none false ≡ err too_few_observations
unfolding walk_forward_folds walk
too_few = refl

walk_forward-Walked_example :
    Walked windows_of_test ten (walk_forward_folds ten (pos 4) (pos 2) (pos 2) none false)
walk_forward-Walked_example =
    walk_forward-Walked ten 4 2 2 2 none false (omega arith) (omega arith) (omega arith)
      (omega arith) refl
