-- ===== src/Backtesting/MonteCarlo.antt =====
-- packages/backtesting/validation.py: `monte_carlo_trade_sequences`. What the standard library does is
-- a parameter: the rounding to a whole number, half up, and `statistics.median`.
pub mod Shuffles
pub mod Finals
mod Tests
use mytradingsystem.Base.{
  List, ℕ, ℤ, Arithmetic, Option, Result, [], get_elem?, if◌then◌else◌, length, pos, suc, zero, ◌*◌,
  ◌++◌, ◌∷◌, err, leb_ℤ, ltb_ℤ, max_ℤ, none, ok, some, ◌%◌, ◌+ℤ◌, ◌+◌, ◌-◌, ◌>>=◌, ◌>>◌, or_raise,
  raise_if, ◌-ℤ◌, ◌^◌, is_empty, negsuc, pos_part, ◌||◌,
}

pub data MonteCarloError : Type 0 where
  no_trades not_positive no_values out_of_range : MonteCarloError

-- `to_integral_value(rounding="ROUND_HALF_UP")` as an `int`, and `median`.
pub record Statistics : Type 0 where
  pub arithmetic : Arithmetic
  pub half_up : ℤ → ℤ
  pub median : List ℤ → ℤ

pub record MonteCarloResult : Type 0 where
  pub seed : ℤ
  pub simulations : ℤ
  pub median_final : ℤ
  pub fifth_percentile : ℤ
  pub ninety_fifth_percentile : ℤ
  pub median_drawdown : ℤ
  pub worst_drawdown : ℤ
  pub probability_of_loss : ℤ

abbrev pub set_at : ℕ → ℤ → List ℤ → List ℤ
set_at i v [] = []
set_at zero v (x ∷ xs) = v ∷ xs
set_at (suc i) v (x ∷ xs) = x ∷ set_at i v xs

abbrev pub swapped : ℕ → ℕ → Option ℤ → Option ℤ → List ℤ → List ℤ
swapped i j (some x) (some y) xs = set_at j x (set_at i y xs)
swapped i j _ _ xs = xs

-- `result[i], result[j] = result[j], result[i]`
abbrev pub swap : ℕ → ℕ → List ℤ → List ℤ
swap i j xs = swapped i j (get_elem? xs i) (get_elem? xs j) xs

abbrev pub lcg : ℕ → ℕ
lcg state = (1664525 * state + 1013904223) % 2 ^ 32

-- The loop over the indices from the last one down to 1.
unfoldable pub shuffle_loop : ℕ → List ℤ → ℕ → List ℤ × ℕ
shuffle_loop zero xs state = (xs, state)
shuffle_loop (suc i) xs state =
    shuffle_loop i (swap (suc i) (lcg state % (suc i + 1)) xs) (lcg state)

-- `_deterministic_shuffle`
unfoldable pub shuffle : List ℤ → ℕ → List ℤ × ℕ
shuffle xs state = shuffle_loop (length xs - 1) xs state

-- `seed % (2**32)`
abbrev pub seed_state : ℤ → ℕ
seed_state (pos n) = n % 2 ^ 32
seed_state (negsuc n) = 2 ^ 32 - 1 - n % 2 ^ 32

-- The path from a value on.
abbrev pub path_from : ℤ → List ℤ → List ℤ
path_from equity [] = equity ∷ []
path_from equity (pnl ∷ pnls) = equity ∷ path_from (equity +ℤ pnl) pnls

-- `xs[-1]`, or a default.
abbrev pub last_or : ℤ → List ℤ → ℤ
last_or d [] = d
last_or d (x ∷ xs) = last_or x xs

abbrev pub insert_ℤ : ℤ → List ℤ → List ℤ
insert_ℤ x [] = x ∷ []
insert_ℤ x (y ∷ ys) = let rest = insert_ℤ x ys in if leb_ℤ x y then x ∷ y ∷ ys else y ∷ rest

-- `xs.sort()`
abbrev pub sort_ℤ : List ℤ → List ℤ
sort_ℤ [] = []
sort_ℤ (x ∷ xs) = insert_ℤ x (sort_ℤ xs)

-- The lists and the count of `monte_carlo_trade_sequences`, and its generator's state.
pub record Tally : Type 0 where
  pub state : ℕ
  pub finals : List ℤ
  pub drawdowns : List ℤ
  pub losing : ℕ

module _ (st : Statistics) where
  abbrev pub deeper : ℤ → ℤ → ℤ → ℤ
  deeper peak equity maximum =
      if ltb_ℤ (pos 0) peak
      then max_ℤ maximum (st.arithmetic.div (peak -ℤ equity) peak)
      else maximum

  unfoldable pub drawdown_from : ℤ → ℤ → List ℤ → ℤ
  drawdown_from peak maximum [] = maximum
  drawdown_from peak maximum (e ∷ es) =
      let peak' = max_ℤ peak e in drawdown_from peak' (deeper peak' e maximum) es

  -- `_maximum_drawdown` of a path with its first value, on which no path is empty.
  abbrev pub maximum_drawdown : ℤ → List ℤ → ℤ
  maximum_drawdown first path = drawdown_from first (pos 0) path

  -- A percentage as a fraction.
  abbrev pub percent : ℕ → ℤ
  percent p = st.arithmetic.div (st.arithmetic.whole (pos p)) (st.arithmetic.whole (pos 100))

  abbrev pub percentile_index : ℕ → ℤ → ℤ
  percentile_index last fraction =
      st.half_up (st.arithmetic.mul (st.arithmetic.whole (pos last)) fraction)

  -- `_percentile`; an index is never negative.
  unfoldable pub percentile : List ℤ → ℤ → Result MonteCarloError ℤ
  percentile [] fraction = err no_values
  percentile (x ∷ xs) fraction =
      or_raise (get_elem? (x ∷ xs) (pos_part (percentile_index (length xs) fraction))) out_of_range

  abbrev pub simulated : ℤ → List ℤ → ℕ → Tally → Tally
  simulated capital shuffled state t =
      let path = path_from capital shuffled in
      let final = last_or capital path in
      record {
        state = state;
        finals = t.finals ++ final ∷ [];
        drawdowns = t.drawdowns ++ maximum_drawdown capital path ∷ [];
        losing = if ltb_ℤ final capital then t.losing + 1 else t.losing;
      }

  unfoldable pub simulate : ℤ → List ℤ → ℕ → Tally → Tally
  simulate capital source zero t = t
  simulate capital source (suc n) t =
      let (shuffled, state) = shuffle source t.state in
      simulate capital source n (simulated capital shuffled state t)

  abbrev pub reported : ℤ → ℤ → Tally → ℤ → ℤ → MonteCarloResult
  reported seed simulations t low high =
      let a = st.arithmetic in
      record {
        seed = seed;
        simulations = simulations;
        median_final = st.median (sort_ℤ t.finals);
        fifth_percentile = low;
        ninety_fifth_percentile = high;
        median_drawdown = st.median (sort_ℤ t.drawdowns);
        worst_drawdown = last_or (pos 0) (sort_ℤ t.drawdowns);
        probability_of_loss = a.div (a.whole (pos t.losing)) (a.whole simulations);
      }

  abbrev pub summary : ℤ → ℤ → Tally → Result MonteCarloError MonteCarloResult
  summary seed simulations t = do
    low ← percentile (sort_ℤ t.finals) (percent 5)
    high ← percentile (sort_ℤ t.finals) (percent 95)
    ok (reported seed simulations t low high)

  unfoldable pub monte_carlo : List ℤ → ℤ → ℤ → ℤ → Result MonteCarloError MonteCarloResult
  monte_carlo pnls capital simulations seed = do
    raise_if (is_empty pnls) no_trades
    raise_if (leb_ℤ capital (pos 0) || leb_ℤ simulations (pos 0)) not_positive
    summary seed simulations (
        simulate capital pnls (pos_part simulations)
          (record { state = seed_state seed; finals = []; drawdowns = []; losing = 0 }))
