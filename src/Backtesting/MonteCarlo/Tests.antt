-- ===== src/Backtesting/MonteCarlo/Tests.antt =====
-- Ten runs over three results in hundredths, and the theorem at them.
use native.Mathlib.Nat.{mul-le-mul_left}
use mytradingsystem.Base.{
  List, ℕ, ℤ, Option, hundredths, pos, ◌≡◌, [], none, pos_part, some, sub_ℕ, ◌*◌, ◌∷◌, arith,
  negsuc, ok, suc, ◌+◌, ◌/◌, ap, get_elem?, refl, length, ◌∙◌,
}
use mytradingsystem.Backtesting.MonteCarlo.{
  Statistics, MonteCarloResult, percent, percentile_index, shuffle, monte_carlo, shuffle_loop,
}
use mytradingsystem.Backtesting.MonteCarlo.Finals.{
  MedianOfCopies, RoundsWithin, length-copies, EndsAlike, get-copies, monte_carlo-EndsAlike,
}

abbrev value_or : ℤ → Option ℤ → ℤ
value_or d none = d
value_or d (some x) = x

abbrev statistics : Statistics
statistics = record {
  arithmetic = hundredths;
  half_up = λ x. pos ((pos_part x + 50) / 100);
  median = λ xs. value_or (pos 0) (get_elem? xs (length xs / 2));
}

sub_zero : (m n : ℕ) → n ≡ 0 → sub_ℕ m n ≡ pos m
sub_zero m n h = ground (arith, h)

whole_is : (n : ℕ) → hundredths.whole (pos n) ≡ pos (n * 100)
whole_is n = sub_zero (n * 100) (0 * 100) (omega arith)

percent_is : (p : ℕ) → percent statistics p ≡ pos p
percent_is p =
    rw (whole_is p, sub_zero (p * 100 * 100 / 10000) (0 * 100 / 10000) (omega arith))
      (ap pos (omega arith))

index_is : (last p : ℕ) → percentile_index statistics last (pos p) ≡ pos ((last * p + 50) / 100)
index_is last p =
    rw
      (
        sub_zero (last * 100) 0 refl,
        sub_zero ((last * 100 * p + 0 * 0) / 100) ((last * 100 * 0 + 0 * p) / 100) (omega arith),
      )
      (ap pos (omega arith))

within : RoundsWithin statistics
within last p h = (
  (last * p + 50) / 100,
  ap (percentile_index statistics last) (percent_is p) ∙ index_is last p,
  omega (arith, mul-le-mul_left last h),
)

medians : MedianOfCopies statistics
medians n x = rw (length-copies (suc n) x, get-copies (suc n) (suc n / 2) x (omega arith)) refl

abbrev pnls : List ℤ
pnls = pos 500 ∷ negsuc 299 ∷ pos 100 ∷ []

shuffled : shuffle pnls 7 ≡ (pos 100 ∷ negsuc 299 ∷ pos 500 ∷ [], 3923423697)
unfolding shuffle shuffle_loop
shuffled = refl

monte_carlo-EndsAlike_example :
    (r : MonteCarloResult) × (monte_carlo statistics pnls (pos 1000) (pos 10) (pos 7) ≡ ok r)
    × EndsAlike statistics (pos 1000) pnls 10 r
monte_carlo-EndsAlike_example =
    monte_carlo-EndsAlike statistics (pos 500) (negsuc 299 ∷ pos 100 ∷ []) (pos 1000) 9 (pos 7)
      within medians (omega arith)
