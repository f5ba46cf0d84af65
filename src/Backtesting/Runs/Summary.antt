-- ===== src/Backtesting/Runs/Summary.antt =====
-- What a result says of the run.
use mytradingsystem.Backtesting.Loop.Chronology.{IsHonest, run_book-Chronicle}
use mytradingsystem.Backtesting.Loop.Times.{Chronicle}
use mytradingsystem.Backtesting.Loop.Causality.{run_book-Remembers}
use mytradingsystem.Backtesting.Loop.Pasts.{Begins, Remembers}
use mytradingsystem.Base.{
  List, ◌≡◌, ok, ◌+ℤ◌, >>=-ok, subst, sum_ℤ, int_laws, map, ok_injective, ℕ, ◌++◌, [], take, ℤ, ◌∷◌,
  ap, length, arith, sym, cons_injective, ◌∙◌, refl,
}
use mytradingsystem.Domain.{Candle}
use mytradingsystem.Backtesting.Loop.{Setup, Book, run_book, run_loop, new_book}
use mytradingsystem.Backtesting.Loop.Accounts.{times, Kept, loop-Kept}
use mytradingsystem.Backtesting.Loop.Ending.{run_book-Closed}
use mytradingsystem.Backtesting.Metrics.{Floats, metrics, net_results, last_value}
use mytradingsystem.Backtesting.Runs.{BacktestResult, result_of, run_backtest}

module _ {F : Type 0} (fl : Floats F) (s : Setup) where
  pub run_backtest-ok :
      (cs : List Candle) {r : BacktestResult}
      → run_backtest fl s cs ≡ ok r
      → (b : Book) × (run_book s cs ≡ ok b) × (result_of fl s b ≡ r)
  unfolding run_backtest
  run_backtest-ok cs h =
      let (b, ran, is) = >>=-ok (run_book s cs) (λ b. ok (result_of fl s b)) h in
      (b, ran, ok_injective is)

  -- The money of a run.
  pub record IsBalanced (cs : List Candle) (r : BacktestResult) : Type 0 where
    pub from_trades :
        r.final_equity ≡ s.config.initial_capital +ℤ sum_ℤ (net_results r.result_trades)
    pub curve_ends : last_value s.config.initial_capital r.result_equity_curve ≡ r.final_equity
    pub net_profit : r.result_metrics.net_profit ≡ sum_ℤ (net_results r.result_trades)
    pub equity_times : times r.result_equity_curve ≡ map (λ c. c.timestamp) cs
    pub drawdown_times : times r.result_drawdown_curve ≡ map (λ c. c.timestamp) cs

  -- A run that returned ends with the capital and the results of its trades, whatever the provider,
  -- the policy and the costs are: the equity curve ends there, the net profit is the sum of the
  -- trades, and both curves have one point for each candle, at its time.
  pub run_backtest-IsBalanced :
      (cs : List Candle) {r : BacktestResult} → run_backtest fl s cs ≡ ok r → IsBalanced cs r
  unfolding metrics
  run_backtest-IsBalanced cs h =
      let (b, ran, is) = run_backtest-ok cs h in
      let k = run_book-Closed s cs ran in
      subst (IsBalanced cs) is (record {
        from_trades = k.accounted;
        curve_ends = k.ends_at;
        net_profit = rw (k.ends_at, k.accounted) (omega int_laws);
        equity_times = k.equity_times;
        drawdown_times = k.drawdown_times;
      })

-- A curve over the candles has as many points.
curve_length :
    (ps : List (ℕ × ℤ)) (cs : List Candle)
    → times ps ≡ map (λ c. c.timestamp) cs
    → length ps ≡ length cs
curve_length [] [] h = refl
curve_length [] (c ∷ cs) h = absurd (ground arith)
curve_length (p ∷ ps) [] h = absurd (ground arith)
curve_length (p ∷ ps) (c ∷ cs) h = omega (arith, curve_length ps cs (cons_injective h).1)

-- A result whose past, over the first candles, is that of the book.
pub record HasPast (cs : List Candle) (b : Book) (r : BacktestResult) : Type 0 where
  pub trades : Begins b.trades r.result_trades
  pub rejected : Begins b.rejected r.rejected_decisions
  pub equity : take (length cs) r.result_equity_curve ≡ b.equity_curve
  pub drawdown : take (length cs) r.result_drawdown_curve ≡ b.drawdown_curve

module _ {F : Type 0} (fl : Floats F) (s : Setup) where
  result-HasPast :
      (cs : List Candle) (b final : Book)
      → Kept s cs b
      → Remembers b final
      → HasPast cs b (result_of fl s final)
  result-HasPast cs b final k m = record {
    trades = m.trades;
    rejected = m.rejected;
    equity =
        ap (λ n. take n final.equity_curve) (sym (curve_length b.equity_curve cs k.equity_times))
        ∙ m.equity;
    drawdown =
        ap (λ n. take n final.drawdown_curve)
          (sym (curve_length b.drawdown_curve cs k.drawdown_times))
        ∙ m.drawdown;
  }

  -- Two runs whose candles begin alike and go on as they may have the same past: the book after the
  -- common candles, which is made from them alone, gives the first points of both runs' curves, and
  -- the trades and refusals that both runs' lists begin with.
  pub run_backtest-HasPast :
      (cs : List Candle) (d e : Candle) (ds es : List Candle) {r q : BacktestResult}
      → run_backtest fl s (cs ++ d ∷ ds) ≡ ok r
      → run_backtest fl s (cs ++ e ∷ es) ≡ ok q
      → (b : Book) × (run_loop s [] cs (new_book s.config) ≡ ok b) × HasPast cs b r × HasPast cs b q
  run_backtest-HasPast cs d e ds es h k =
      let (f, ran, is) = run_backtest-ok fl s (cs ++ d ∷ ds) h in
      let (g, ran', is') = run_backtest-ok fl s (cs ++ e ∷ es) k in
      let (b, looped, m) = run_book-Remembers s cs d ds ran in
      let (b', looped', m') = run_book-Remembers s cs e es ran' in
      let same : b' ≡ b = ok_injective (sym looped' ∙ looped) in
      let kept = loop-Kept s cs looped in
      (
        b,
        looped,
        subst (HasPast cs b) is (result-HasPast cs b f kept m),
        subst (HasPast cs b) is' (result-HasPast cs b g kept (subst (λ x. Remembers x g) same m')),
      )

  -- Where no decision is dated after the candles that it was made from, each trade of a run was
  -- signalled before it was entered, and was over when the next one was entered.
  pub run_backtest-Chronicle :
      (cs : List Candle) {r : BacktestResult}
      → IsHonest s
      → run_backtest fl s cs ≡ ok r
      → Chronicle r.result_trades
  run_backtest-Chronicle cs honest h =
      let (b, ran, is) = run_backtest-ok fl s cs h in
      subst (λ x. Chronicle x.result_trades) is (run_book-Chronicle s cs honest ran)
