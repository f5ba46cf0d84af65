-- ===== src/Backtesting/Runs.antt =====
-- packages/backtesting/engine.py: `run_backtest` whole.
pub mod Summary
use mytradingsystem.Base.{List, ℤ, Result, ℕ, ◌>>=◌, err, ok}
use mytradingsystem.Domain.{Candle}
use mytradingsystem.Backtesting.Policy.{BacktestError, BacktestConfig, PolicyReason}
use mytradingsystem.Backtesting.Positions.{Trade}
use mytradingsystem.Backtesting.Loop.{Setup, Book, run_book}
use mytradingsystem.Backtesting.Metrics.{Floats, PerformanceMetrics, metrics}

pub record BacktestResult : Type 0 where
  pub initial_capital : ℤ
  pub final_equity : ℤ
  pub result_equity_curve : List (ℕ × ℤ)
  pub result_drawdown_curve : List (ℕ × ℤ)
  pub result_trades : List Trade
  pub rejected_decisions : List (ℕ × PolicyReason)
  pub result_metrics : PerformanceMetrics

module _ {F : Type 0} (fl : Floats F) (s : Setup) where
  abbrev pub result_of : Book → BacktestResult
  result_of b = record {
    initial_capital = s.config.initial_capital;
    final_equity = b.equity;
    result_equity_curve = b.equity_curve;
    result_drawdown_curve = b.drawdown_curve;
    result_trades = b.trades;
    rejected_decisions = b.rejected;
    result_metrics =
        metrics s.arithmetic fl s.config.initial_capital b.equity_curve b.drawdown_curve b.trades
          s.config.annualization_sessions;
  }

  -- `run_backtest`
  unfoldable pub run_backtest : List Candle → Result BacktestError BacktestResult
  run_backtest cs = run_book s cs >>= λ b. ok (result_of b)
