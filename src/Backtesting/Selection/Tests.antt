-- ===== src/Backtesting/Selection/Tests.antt =====
-- A selection of one of three candidates, and the theorem at it.
use mytradingsystem.Backtesting.Splits.{Split}
use mytradingsystem.Base.{
  List, ℕ, Result, [], some, ◌∷◌, hundredths, pos, ◌+◌, ◌-ℤ◌, negsuc, ◌%◌, ◌≡◌, err, ok, refl,
}
use mytradingsystem.Backtesting.Selection.{
  Callbacks, OutOfSample, compare_benchmark, cost_sensitivity, select_out_of_sample, SelectionError,
  scored, negative_cost,
}
use mytradingsystem.Backtesting.Selection.Blind.{IsBlind, select_out_of_sample-IsBlind}

abbrev sum_of : List ℕ → ℕ
sum_of [] = 0
sum_of (x ∷ xs) = x + sum_of xs

-- The score is the candidate's remainder by three; the test adds up its values.
abbrev callbacks : Callbacks ℕ ℕ ℕ
callbacks = record {
  score_validation = λ c train validation. some (pos (c % 3));
  evaluate_test = λ c test. c + sum_of test;
}

abbrev split_of : List ℕ → Split ℕ
split_of test = record { train = 1 ∷ []; validation = 2 ∷ []; test = test }

abbrev run_of : List ℕ → Result SelectionError (OutOfSample ℕ ℕ)
run_of test = select_out_of_sample callbacks (split_of test) (1 ∷ 5 ∷ 8 ∷ [])

abbrev outcome : OutOfSample ℕ ℕ
outcome = record {
  selected_candidate = 5;
  candidate_scores =
      record { candidate = 1; validation_score = pos 1 }
      ∷ record { candidate = 5; validation_score = pos 2 }
      ∷ record { candidate = 8; validation_score = pos 2 }
      ∷ [];
  test_result = 15;
}

selects : run_of (3 ∷ 7 ∷ []) ≡ ok outcome
unfolding select_out_of_sample scored
selects = refl

select_out_of_sample-IsBlind_example : IsBlind callbacks outcome (9 ∷ []) (run_of (9 ∷ []))
select_out_of_sample-IsBlind_example =
    select_out_of_sample-IsBlind callbacks (1 ∷ []) (2 ∷ []) (3 ∷ 7 ∷ []) (9 ∷ []) (1 ∷ 5 ∷ 8 ∷ [])
      selects refl

costs_refused : cost_sensitivity hundredths [] (negsuc 0 ∷ []) ≡ err negative_cost
unfolding cost_sensitivity
costs_refused = refl

excess :
    compare_benchmark hundredths (pos 100 ∷ pos 150 ∷ []) (pos 100 ∷ pos 120 ∷ [])
    ≡ ok (record { strategy_return = pos 50; benchmark_return = pos 20; excess_return = pos 30 })
unfolding compare_benchmark ◌-ℤ◌
excess = refl
