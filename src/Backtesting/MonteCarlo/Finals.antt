-- ===== src/Backtesting/MonteCarlo/Finals.antt =====
-- What a simulation says of the final equity.
use mytradingsystem.Backtesting.MonteCarlo.Shuffles.{total-shuffle}
use mytradingsystem.Base.{
  List, ℤ, map, ℕ, [], if◌then◌else◌, length, sum_ℤ, ◌++◌, ◌+ℤ◌, ◌<◌, ◌∷◌, ◌≡◌, ap, get_elem?,
  int_laws, ltb_ℤ, suc, sym, zero, ◌+◌, arith, refl, some, ◌∙◌, ap₂, subst, ◌≤◌, pos, ok, ◌<ℤ◌,
  leb_ℤ, ◌||◌, false,
}
use mytradingsystem.Backtesting.MonteCarlo.{
  shuffle, Statistics, last_or, Tally, path_from, simulate, sort_ℤ, simulated, MonteCarloResult,
  monte_carlo, percentile, percent, percentile_index, summary, seed_state, reported,
}

abbrev pub copies : ℕ → ℤ → List ℤ
copies zero x = []
copies (suc n) x = x ∷ copies n x

copies-snoc : (n : ℕ) (x : ℤ) → copies n x ++ x ∷ [] ≡ copies (suc n) x
copies-snoc zero x = refl
copies-snoc (suc n) x = ap (λ xs. x ∷ xs) (copies-snoc n x)

sort-copies : (n : ℕ) (x : ℤ) → sort_ℤ (copies n x) ≡ copies n x
sort-copies zero x = refl
sort-copies (suc zero) x = refl
sort-copies (suc (suc n)) x = rw (sort-copies (suc n) x) (ground arith)

pub length-copies : (n : ℕ) (x : ℤ) → length (copies n x) ≡ n
length-copies zero x = refl
length-copies (suc n) x = omega (arith, length-copies n x)

pub get-copies : (n k : ℕ) (x : ℤ) → k < n → get_elem? (copies n x) k ≡ some x
get-copies zero k x h = absurd (omega (arith, h))
get-copies (suc n) zero x h = refl
get-copies (suc n) (suc k) x h = get-copies n k x (omega (arith, h))

-- A path ends with what its steps add up to.
last-path : (d e : ℤ) (pnls : List ℤ) → last_or d (path_from e pnls) ≡ e +ℤ sum_ℤ pnls
last-path d e [] = omega int_laws
last-path d e (p ∷ ps) = last-path e (e +ℤ p) ps ∙ omega int_laws

map_id : (xs : List ℤ) → map (λ x. x) xs ≡ xs
map_id [] = refl
map_id (x ∷ xs) = ap (λ ys. x ∷ ys) (map_id xs)

sum-shuffle : (xs : List ℤ) (state : ℕ) → sum_ℤ (shuffle xs state).0 ≡ sum_ℤ xs
sum-shuffle xs state =
    sym (ap sum_ℤ (map_id (shuffle xs state).0))
    ∙ total-shuffle (λ x. x) xs state
    ∙ ap sum_ℤ (map_id xs)

module _ (st : Statistics) (capital : ℤ) (pnls : List ℤ) where
  -- The capital and all the results.
  abbrev pub final : ℤ
  final = capital +ℤ sum_ℤ pnls

  -- The losing runs among so many, where every run ends alike.
  abbrev pub losses : ℕ → ℕ
  losses n = if ltb_ℤ final capital then n else 0

  record Alike (n : ℕ) (t : Tally) : Type 0 where
    finals : t.finals ≡ copies n final
    losing : t.losing ≡ losses n

  simulated-Alike :
      (n : ℕ) (t : Tally)
      → Alike n t
      → Alike (suc n) (simulated st capital (shuffle pnls t.state).0 (shuffle pnls t.state).1 t)
  simulated-Alike n t k =
      let shuffled = (shuffle pnls t.state).0 in
      let ends : last_or capital (path_from capital shuffled) ≡ final =
        last-path capital capital shuffled ∙ ap (λ x. capital +ℤ x) (sum-shuffle pnls t.state) in
      record {
        finals = ap₂ (λ xs x. xs ++ x ∷ []) k.finals ends ∙ copies-snoc n final;
        losing = rw ends (ground (arith, k.losing));
      }

  simulate-Alike : (m n : ℕ) (t : Tally) → Alike n t → Alike (m + n) (simulate st capital pnls m t)
  unfolding simulate
  simulate-Alike zero n t k =
      let same : zero + n ≡ n = omega arith in subst (λ i. Alike i t) (sym same) k
  simulate-Alike (suc m) n t k =
      let same : m + suc n ≡ suc m + n = omega arith in
      let one = simulated st capital (shuffle pnls t.state).0 (shuffle pnls t.state).1 t in
      subst (λ i. Alike i (simulate st capital pnls m one)) same
        (simulate-Alike m (suc n) one (simulated-Alike n t k))

module _ (st : Statistics) where
  -- The index of a percentage of the last index is not beyond it.
  abbrev pub RoundsWithin : Type 0
  RoundsWithin =
      (last p : ℕ)
      → p ≤ 100
      → (k : ℕ) × (percentile_index st last (percent st p) ≡ pos k) × (k ≤ last)

  abbrev pub MedianOfCopies : Type 0
  MedianOfCopies = (n : ℕ) (x : ℤ) → st.median (copies (suc n) x) ≡ x

  percentile-copies :
      (n p : ℕ) (x : ℤ)
      → RoundsWithin
      → p ≤ 100
      → percentile st (copies (suc n) x) (percent st p) ≡ ok x
  unfolding percentile
  percentile-copies n p x within h =
      let (k, index, le) = within n p h in
      let found = get-copies (suc n) k x (omega (arith, le)) in
      rw (length-copies n x, index, found) refl

  -- The result where every run ends alike.
  pub record EndsAlike (capital : ℤ) (pnls : List ℤ) (n : ℕ) (r : MonteCarloResult) : Type 0 where
    pub median_final : r.median_final ≡ final st capital pnls
    pub fifth_percentile : r.fifth_percentile ≡ final st capital pnls
    pub ninety_fifth_percentile : r.ninety_fifth_percentile ≡ final st capital pnls
    pub probability_of_loss :
        r.probability_of_loss
        ≡ st.arithmetic.div
            (st.arithmetic.whole (pos (losses st capital pnls n)))
            (st.arithmetic.whole (pos n))

  summary-EndsAlike :
      (capital : ℤ) (pnls : List ℤ) (n : ℕ) (seed : ℤ) (t : Tally)
      → RoundsWithin
      → MedianOfCopies
      → Alike st capital pnls (suc n) t
      → (r : MonteCarloResult) × (summary st seed (pos (suc n)) t ≡ ok r)
        × EndsAlike capital pnls (suc n) r
  summary-EndsAlike capital pnls n seed t within medians k =
      let x = final st capital pnls in
      let sorted : sort_ℤ t.finals ≡ copies (suc n) x =
        ap sort_ℤ k.finals ∙ sort-copies (suc n) x in
      let low = percentile-copies n 5 x within (omega arith) in
      let high = percentile-copies n 95 x within (omega arith) in
      (
        reported st seed (pos (suc n)) t x x,
        rw (sorted, low, high) refl,
        record {
          median_final = rw sorted (medians n x);
          fifth_percentile = refl;
          ninety_fifth_percentile = refl;
          probability_of_loss = rw k.losing refl;
        },
      )

  -- The final equities that a Monte Carlo run reports say nothing of the order of the trades, nor of
  -- the seed: where percentiles are rounded within the list and the median of copies of a value is
  -- the value, the run returns, its median and both its percentiles are the capital and the sum of
  -- all the results, and the losing runs that its probability counts are all of them or none.
  pub monte_carlo-EndsAlike :
      (p : ℤ) (ps : List ℤ) (capital : ℤ) (n : ℕ) (seed : ℤ)
      → RoundsWithin
      → MedianOfCopies
      → pos 0 <ℤ capital
      → (r : MonteCarloResult) × (monte_carlo st (p ∷ ps) capital (pos (suc n)) seed ≡ ok r)
        × EndsAlike capital (p ∷ ps) (suc n) r
  unfolding monte_carlo
  monte_carlo-EndsAlike p ps capital n seed within medians rich =
      let start : Tally = record {
        state = seed_state seed;
        finals = [];
        drawdowns = [];
        losing = 0;
      } in
      let empty : Alike st capital (p ∷ ps) 0 start = record {
        finals = refl;
        losing = ground arith;
      } in
      let all = simulate-Alike st capital (p ∷ ps) (suc n) 0 start empty in
      let same : suc n + 0 ≡ suc n = omega arith in
      let t = simulate st capital (p ∷ ps) (suc n) start in
      let (r, is, alike) =
        summary-EndsAlike capital (p ∷ ps) n seed t within medians
          (subst (λ i. Alike st capital (p ∷ ps) i t) same all) in
      let tests : (leb_ℤ capital (pos 0) || leb_ℤ (pos (suc n)) (pos 0)) ≡ false =
        ground (arith, rich) in
      (r, rw (tests, is) refl, alike)
