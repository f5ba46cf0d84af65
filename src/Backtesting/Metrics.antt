-- ===== src/Backtesting/Metrics.antt =====
-- packages/backtesting/engine.py: `_metrics`. Floats and their operations are a parameter.

use mytradingsystem.Base.{
  Arithmetic, List, ℕ, ℤ, Bool, Option, [], if◌then◌else◌, length, map, max, pos, ◌+ℤ◌, ◌∷◌, leb,
  ltb_ℤ, max_ℤ, none, some, ◌+◌, ◌-ℤ◌, ◌==ℤ◌, ◌==◌, abs, ◌-◌, sum_ℤ,
}
use mytradingsystem.Backtesting.Positions.{Trade}

-- `sum` of floats, which rounds in its own way, `float(x)`, and `Decimal(str(x))`.
pub record Floats (F : Type 0) : Type 0 where
  pub of_decimal : ℤ → F
  pub to_decimal : F → ℤ
  pub of_int : ℤ → F
  pub sum : List F → F
  pub sub : F → F → F
  pub mul : F → F → F
  pub div : F → F → F
  pub square : F → F
  pub sqrt : F → F
  pub is_positive : F → Bool

pub record PerformanceMetrics : Type 0 where
  pub net_profit : ℤ
  pub total_return : ℤ
  pub win_rate : ℤ
  pub average_win : ℤ
  pub average_loss : ℤ
  pub expectancy : ℤ
  pub profit_factor : Option ℤ
  pub maximum_drawdown : ℤ
  pub sharpe_ratio : Option ℤ
  pub turnover : ℤ
  pub trade_count : ℕ
  pub consecutive_wins : ℕ
  pub consecutive_losses : ℕ

abbrev pub is_win : ℤ → Bool
is_win x = ltb_ℤ (pos 0) x

abbrev pub is_loss : ℤ → Bool
is_loss x = ltb_ℤ x (pos 0)

abbrev pub kept_where : (ℤ → Bool) → List ℤ → List ℤ
kept_where p [] = []
kept_where p (x ∷ xs) = let rest = kept_where p xs in if p x then x ∷ rest else rest

abbrev pub net_results : List Trade → List ℤ
net_results ts = map (λ t. t.net_pnl) ts

-- `max((...), default=Decimal(0))`
abbrev pub greatest : List ℤ → ℤ
greatest [] = pos 0
greatest (x ∷ []) = x
greatest (x ∷ y ∷ ys) = greatest (max_ℤ x y ∷ ys)

abbrev pub last_value : ℤ → List (ℕ × ℤ) → ℤ
last_value initial [] = initial
last_value initial ((t, x) ∷ ps) = last_value x ps

-- The four counters of the last loop.
pub record Streaks : Type 0 where
  pub current_wins : ℕ
  pub current_losses : ℕ
  pub most_wins : ℕ
  pub most_losses : ℕ

abbrev pub no_streaks : Streaks
no_streaks = record { current_wins = 0; current_losses = 0; most_wins = 0; most_losses = 0 }

abbrev pub counted : Streaks → ℕ → ℕ → Streaks
counted s wins losses = record {
  current_wins = wins;
  current_losses = losses;
  most_wins = max s.most_wins wins;
  most_losses = max s.most_losses losses;
}

abbrev pub streak_step : Streaks → ℤ → Streaks
streak_step s x =
    if is_win x
    then counted s (s.current_wins + 1) 0
    else if is_loss x
    then counted s 0 (s.current_losses + 1)
    else counted s s.current_wins s.current_losses

unfoldable pub streaks : Streaks → List ℤ → Streaks
streaks s [] = s
streaks s (x ∷ xs) = streaks (streak_step s x) xs

module _ (a : Arithmetic) where
  -- `sum(xs, Decimal(0)) / len(xs) if xs else Decimal(0)`
  abbrev pub average : List ℤ → ℤ
  average [] = pos 0
  average (x ∷ xs) = a.div (sum_ℤ (x ∷ xs)) (a.whole (pos (length (x ∷ xs))))

  abbrev pub ratio_to : ℤ → ℕ → ℤ
  ratio_to x n = if n == 0 then pos 0 else a.div x (a.whole (pos n))

  abbrev pub factor : ℤ → ℤ → Option ℤ
  factor wins losses = if losses ==ℤ pos 0 then none else some (a.div wins losses)

  abbrev pub traded : Trade → ℤ
  traded t = a.mul (t.entry_price +ℤ t.exit_price) t.quantity

  module _ {F : Type 0} (fl : Floats F) where
    abbrev pub returns : List (ℕ × ℤ) → List F
    returns [] = []
    returns (p ∷ []) = []
    returns ((t, x) ∷ (u, y) ∷ ps) =
        let rest = returns ((u, y) ∷ ps) in
        if x ==ℤ pos 0 then rest else fl.of_decimal (a.div y x -ℤ a.whole (pos 1)) ∷ rest

    abbrev pub sharpe_of : F → F → ℤ → Option ℤ
    sharpe_of mean variance annualization =
        if fl.is_positive variance
        then some (
            fl.to_decimal
              (fl.mul (fl.div mean (fl.sqrt variance)) (fl.sqrt (fl.of_int annualization))))
        else none

    abbrev pub sharpe : List F → ℤ → Option ℤ
    sharpe rs annualization =
        if leb (length rs) 1
        then none
        else let mean = fl.div (fl.sum rs) (fl.of_int (pos (length rs))) in
          let squares = map (λ r. fl.square (fl.sub r mean)) rs in
          let variance = fl.div (fl.sum squares) (fl.of_int (pos (length rs - 1))) in
          sharpe_of mean variance annualization

    -- `_metrics`
    unfoldable pub metrics : ℤ → List (ℕ × ℤ) → List (ℕ × ℤ) → List Trade → ℤ → PerformanceMetrics
    metrics initial equity_curve drawdown_curve trades annualization =
        let final = last_value initial equity_curve in
        let results = net_results trades in
        let wins = kept_where is_win results in
        let losses = kept_where is_loss results in
        let count = length trades in
        let runs = streaks no_streaks results in
        record {
          net_profit = final -ℤ initial;
          total_return = a.div final initial -ℤ a.whole (pos 1);
          win_rate = ratio_to (a.whole (pos (length wins))) count;
          average_win = average wins;
          average_loss = average losses;
          expectancy = ratio_to (sum_ℤ results) count;
          profit_factor = factor (sum_ℤ wins) (abs (sum_ℤ losses));
          maximum_drawdown = greatest (map (λ p. p.1) drawdown_curve);
          sharpe_ratio = sharpe (returns equity_curve) annualization;
          turnover = sum_ℤ (map traded trades);
          trade_count = count;
          consecutive_wins = runs.most_wins;
          consecutive_losses = runs.most_losses;
        }
