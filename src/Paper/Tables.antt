-- ===== src/Paper/Tables.antt =====
-- packages/paper_trading/broker.py and packages/database/models.py: the rows of the paper accounts,
-- and the broker's results and errors. A row is what the session holds, with the values that were
-- written; Columns.antt says what its columns keep of them.
use mytradingsystem.Domain.{OrderStatus, OrderType, Side}
use mytradingsystem.Backtesting.Costs.{CostError}
use mytradingsystem.Base.{Bool, ℕ, ℤ, List, String, Dict}

pub data PaperError : Type 0 where
  negative_slippage nonpositive_cash different_capital not_a_market_order foreign_decision :
      PaperError
  no_risk_approval bad_approved_quantity nonpositive_price naive_time no_ledger : PaperError
  cost_error : CostError → PaperError
  price_required : ℕ → PaperError

pub record PaperOrder : Type 0 where
  pub order_id : ℕ
  pub account_id : ℕ
  pub instrument_id : ℕ
  pub intent_id : ℕ
  pub risk_decision_id : ℕ
  pub idempotency_key : String
  pub side : Side
  pub order_type : OrderType
  pub status : OrderStatus
  pub quantity : ℤ
  pub filled_quantity : ℤ
  pub average_price : ℤ
  pub charges : ℤ
  pub filled_at : ℕ

pub record PaperFill : Type 0 where
  pub fill_order_id : ℕ
  pub fill_quantity : ℤ
  pub price : ℤ
  pub fill_charges : ℤ
  pub fill_time : ℕ

pub record PaperOrderEvent : Type 0 where
  pub event_order_id : ℕ
  pub occurred_at : ℕ
  pub event_status : OrderStatus
  pub event_decision_id : ℕ

pub record Position : Type 0 where
  pub quantity : ℤ
  pub average_price : ℤ
  pub realized_pnl : ℤ

pub record Ledger : Type 0 where
  pub initial_cash : ℤ
  pub cash_balance : ℤ
  pub peak_equity : ℤ

pub record PnlSnapshot : Type 0 where
  pub account_id : ℕ
  pub occurred_at : ℕ
  pub cash : ℤ
  pub equity : ℤ
  pub realized_pnl : ℤ
  pub unrealized_pnl : ℤ
  pub gross_exposure : ℤ
  pub net_exposure : ℤ
  pub drawdown : ℤ

-- Positions are unique by account and instrument, ledgers by account.
pub record Tables : Type 0 where
  pub orders : List PaperOrder
  pub fills : List PaperFill
  pub order_events : List PaperOrderEvent
  pub positions : Dict (ℕ × ℕ) Position
  pub ledgers : Dict ℕ Ledger
  pub snapshots : List PnlSnapshot

pub record Execution : Type 0 where
  pub order_id : ℕ
  pub status : OrderStatus
  pub filled_quantity : ℤ
  pub average_price : ℤ
  pub charges : ℤ
  pub duplicate : Bool
