-- ===== src/Backtesting/Selection.antt =====
-- packages/backtesting/validation.py: `run_out_of_sample_selection`, the parameter stability, the cost
-- sensitivity and the comparison with a benchmark.
pub mod Blind
mod Tests
use mytradingsystem.Backtesting.Metrics.{net_results, traded}
use mytradingsystem.Backtesting.Positions.{Trade}
use mytradingsystem.Backtesting.MonteCarlo.{Statistics, last_or}
use mytradingsystem.Backtesting.Splits.{Split}
use mytradingsystem.Base.{
  List, ℕ, ℤ, Arithmetic, Bool, Option, Result, [], ◌∷◌, abs, err, if◌then◌else◌, max_ℤ, min_ℤ, ok,
  pos, ◌-ℤ◌, ◌>>=◌, ◌>>◌, length, ltb_ℤ, none, raise_if, some, any, is_empty, leb_ℤ, ltb, suc, zero,
  map, ◌&&◌, ◌||◌, not, sum_ℤ, ◌==◌,
}

pub data SelectionError : Type 0 where
  empty_partitions no_candidates not_finite : SelectionError
  too_few_scores bad_fraction negative_change : SelectionError
  negative_cost not_aligned not_positive : SelectionError

-- `CandidateValidationScore`
pub record CandidateScore (C : Type 0) : Type 0 where
  pub candidate : C
  pub validation_score : ℤ

-- `OutOfSampleResult`
pub record OutOfSample (C R : Type 0) : Type 0 where
  pub selected_candidate : C
  pub candidate_scores : List (CandidateScore C)
  pub test_result : R

-- The first, or the second where its score is greater.
abbrev pub better : {C : Type 0} → CandidateScore C → CandidateScore C → CandidateScore C
better b s = if ltb_ℤ b.validation_score s.validation_score then s else b

-- `max(scores, key=...)`
abbrev pub best : {C : Type 0} → CandidateScore C → List (CandidateScore C) → CandidateScore C
best b [] = b
best b (s ∷ ss) = best (better b s) ss

-- The callbacks of a selection. A score is `none` where it is not finite.
pub record Callbacks (T C R : Type 0) : Type 0 where
  pub score_validation : C → List T → List T → Option ℤ
  pub evaluate_test : C → List T → R

module _ {T C R : Type 0} (cb : Callbacks T C R) where
  abbrev pub finite_score : C → Option ℤ → Result SelectionError (CandidateScore C)
  finite_score c none = err not_finite
  finite_score c (some x) = ok (record { candidate = c; validation_score = x })

  unfoldable pub scored : List T → List T → List C → Result SelectionError (List (CandidateScore C))
  scored train validation [] = ok []
  scored train validation (c ∷ cs) = do
    s ← finite_score c (cb.score_validation c train validation)
    ss ← scored train validation cs
    ok (s ∷ ss)

  abbrev pub selected : List T → List (CandidateScore C) → Result SelectionError (OutOfSample C R)
  selected test [] = err no_candidates
  selected test (s ∷ ss) =
      let c = (best s ss).candidate in
      ok (record {
        selected_candidate = c;
        candidate_scores = s ∷ ss;
        test_result = cb.evaluate_test c test;
      })

  unfoldable pub select_out_of_sample : Split T → List C → Result SelectionError (OutOfSample C R)
  select_out_of_sample split candidates = do
    raise_if (is_empty split.train || is_empty split.validation || is_empty split.test)
        empty_partitions
    raise_if (is_empty candidates) no_candidates
    scored split.train split.validation candidates >>= selected split.test

-- `ParameterStabilityResult`
pub record Stability : Type 0 where
  pub median_score : ℤ
  pub minimum_score : ℤ
  pub maximum_score : ℤ
  pub positive_fraction : ℤ
  pub neighbor_change : ℤ
  pub stable : Bool

abbrev pub greatest_of : ℤ → List ℤ → ℤ
greatest_of x [] = x
greatest_of x (y ∷ ys) = greatest_of (max_ℤ x y) ys

abbrev pub least_of : ℤ → List ℤ → ℤ
least_of x [] = x
least_of x (y ∷ ys) = least_of (min_ℤ x y) ys

abbrev pub positives : List ℤ → ℕ
positives [] = 0
positives (x ∷ xs) = if ltb_ℤ (pos 0) x then suc (positives xs) else positives xs

module _ (st : Statistics) where
  abbrev pub change : ℤ → ℤ → ℤ
  change left right =
      let a = st.arithmetic in
      a.div (abs (right -ℤ left))
        (max_ℤ (max_ℤ (abs left) (abs right)) (a.div (a.whole (pos 1)) (a.whole (pos 10000000))))

  -- Over `pairwise`.
  abbrev pub changes : List ℤ → List ℤ
  changes [] = []
  changes (x ∷ []) = []
  changes (x ∷ y ∷ ys) = change x y ∷ changes (y ∷ ys)

  abbrev pub stability_of : ℤ → ℤ → ℤ → List ℤ → ℤ → Stability
  stability_of minimum_fraction maximum_change x xs observed =
      let a = st.arithmetic in
      let fraction = a.div (a.whole (pos (positives (x ∷ xs)))) (a.whole (pos (length (x ∷ xs)))) in
      record {
        median_score = st.median (x ∷ xs);
        minimum_score = least_of x xs;
        maximum_score = greatest_of x xs;
        positive_fraction = fraction;
        neighbor_change = observed;
        stable = leb_ℤ minimum_fraction fraction && leb_ℤ observed maximum_change;
      }

  abbrev pub stability_from : ℤ → ℤ → List ℤ → List ℤ → Result SelectionError Stability
  stability_from minimum_fraction maximum_change (x ∷ xs) (d ∷ ds) =
      ok (stability_of minimum_fraction maximum_change x xs (greatest_of d ds))
  stability_from minimum_fraction maximum_change _ _ = err too_few_scores

  unfoldable pub assess_stability : List ℤ → ℤ → ℤ → Result SelectionError Stability
  assess_stability scores minimum_fraction maximum_change = do
    raise_if (ltb (length scores) 3) too_few_scores
    raise_if
        (ltb_ℤ minimum_fraction (pos 0) || ltb_ℤ (st.arithmetic.whole (pos 1)) minimum_fraction)
        bad_fraction
    raise_if (ltb_ℤ maximum_change (pos 0)) negative_change
    stability_from minimum_fraction maximum_change scores (changes scores)

-- `CostSensitivityPoint`
pub record CostPoint : Type 0 where
  pub additional_cost_bps : ℤ
  pub adjusted_net_profit : ℤ
  pub profitable : Bool

-- `BenchmarkComparison`
pub record Comparison : Type 0 where
  pub strategy_return : ℤ
  pub benchmark_return : ℤ
  pub excess_return : ℤ

module _ (a : Arithmetic) where
  abbrev pub cost_point : ℤ → ℤ → ℤ → CostPoint
  cost_point base turnover cost =
      let adjusted = base -ℤ a.div (a.mul turnover cost) (a.whole (pos 10000)) in
      record {
        additional_cost_bps = cost;
        adjusted_net_profit = adjusted;
        profitable = ltb_ℤ (pos 0) adjusted;
      }

  unfoldable pub cost_sensitivity : List Trade → List ℤ → Result SelectionError (List CostPoint)
  cost_sensitivity trades costs = do
    raise_if (any (λ x. ltb_ℤ x (pos 0)) costs) negative_cost
    ok (map (cost_point (sum_ℤ (net_results trades)) (sum_ℤ (map (traded a) trades))) costs)

  abbrev pub return_of : ℤ → List ℤ → ℤ
  return_of first rest = a.div (last_or first rest) first -ℤ a.whole (pos 1)

  abbrev pub compared : List ℤ → List ℤ → Result SelectionError Comparison
  compared (s ∷ ss) (b ∷ bs) = do
    raise_if (leb_ℤ s (pos 0) || leb_ℤ b (pos 0)) not_positive
    ok (record {
      strategy_return = return_of s ss;
      benchmark_return = return_of b bs;
      excess_return = return_of s ss -ℤ return_of b bs;
    })
  compared _ _ = err not_aligned

  unfoldable pub compare_benchmark : List ℤ → List ℤ → Result SelectionError Comparison
  compare_benchmark strategy benchmark = do
    raise_if (ltb (length strategy) 2 || not (length strategy == length benchmark)) not_aligned
    compared strategy benchmark
