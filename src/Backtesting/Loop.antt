-- ===== src/Backtesting/Loop.antt =====
-- packages/backtesting/engine.py: the loop of `run_backtest`. What a candle does to the book is split
-- at the comments and blank lines of the loop's body; the provider and the policy are arguments.
pub mod Steps
pub mod Accounts
pub mod Ending
pub mod Pasts
pub mod Causality
pub mod Times
pub mod Chronology
use mytradingsystem.Base.{
  Arithmetic, Bool, List, Option, Result, if◌then◌else◌, none, some, ℕ, ℤ, ◌++◌, ◌+ℤ◌, [], err,
  false, max_ℤ, not, ok, pos, true, ◌==ℤ◌, ◌>>=◌, ◌>>◌, ◌∷◌, any, leb, raise_if, ◌-ℤ◌, ◌==◌, ◌||◌,
}
use mytradingsystem.Domain.{Candle, SignalAction, long, short, exit_position, Side, buy, sell}
use mytradingsystem.Decision.{DecisionResult, is_entry}
use mytradingsystem.Backtesting.Costs.{CostModel}
use mytradingsystem.Backtesting.Policy.{
  BacktestError, BacktestConfig, PolicyDecision, PolicyReason, RiskPolicy, open_candle,
  mixed_candles, not_chronological,
}
use mytradingsystem.Backtesting.Positions.{
  ExitReason, at_signal, at_end_of_data, Trade, Position, is_long, lift_cost, intrabar_exit,
  slipped, sign_of, close_position,
}

-- What a run is given, after `None` was replaced by the defaults.
pub record Setup : Type 0 where
  pub arithmetic : Arithmetic
  pub config : BacktestConfig
  pub decision_provider : List Candle → DecisionResult
  pub risk_policy : RiskPolicy
  pub cost_model : CostModel

-- The local variables of the loop.
pub record Book : Type 0 where
  pub equity : ℤ
  pub peak : ℤ
  pub position : Option Position
  pub pending : Option DecisionResult
  pub trades : List Trade
  pub rejected : List (ℕ × PolicyReason)
  pub equity_curve : List (ℕ × ℤ)
  pub drawdown_curve : List (ℕ × ℤ)

abbrev pub new_book : BacktestConfig → Book
new_book c = record {
  equity = c.initial_capital;
  peak = c.initial_capital;
  position = none;
  pending = none;
  trades = [];
  rejected = [];
  equity_curve = [];
  drawdown_curve = [];
}

abbrev pub is_exit : SignalAction → Bool
is_exit exit_position = true
is_exit _ = false

-- A trade leaves no position, and its result goes to the equity.
abbrev pub booked : Trade → Book → Book
booked t b = record b {
  trades = b.trades ++ t ∷ [];
  equity = b.equity +ℤ t.net_pnl;
  position = none;
}

abbrev pub entry_side : SignalAction → Side
entry_side action = if is_long action then buy else sell

abbrev pub unqueued : Book → Book
unqueued b = record b { pending = none }

-- `curve[-1] = point`
abbrev pub set_last : ℕ × ℤ → List (ℕ × ℤ) → List (ℕ × ℤ)
set_last p [] = []
set_last p (x ∷ []) = p ∷ []
set_last p (x ∷ y ∷ ys) = x ∷ set_last p (y ∷ ys)

abbrev pub last_candle : Candle → List Candle → Candle
last_candle c [] = c
last_candle c (d ∷ ds) = last_candle d ds

abbrev pub is_queued : DecisionResult → Option Position → Bool
is_queued d (some p) = is_exit d.result_action
is_queued d none = is_entry d.result_action

-- The decision at the candle's close.
unfoldable pub queue : DecisionResult → Book → Book
queue d b = if is_queued d b.position then record b { pending = some d } else b

module _ (s : Setup) where
  unfoldable pub close_book : Position → ℕ → ℤ → ExitReason → Book → Result BacktestError Book
  close_book p t raw reason b =
      close_position s.arithmetic s.cost_model s.config.slippage_bps p t raw reason >>= λ trade.
      ok (booked trade b)

  abbrev pub opened : DecisionResult → ℕ → ℤ → ℤ → ℤ → ℤ → ℤ → Position
  opened d t quantity price stop target cost = record {
    decision = d;
    held_direction = d.result_action;
    held_quantity = quantity;
    held_signal_at = d.result_timestamp;
    held_entered_at = t;
    held_price = price;
    held_stop = stop;
    held_target = target;
    entry_cost = cost;
  }

  abbrev pub entered :
      DecisionResult → ℕ → ℤ → PolicyDecision → ℤ → ℤ → Book → Result BacktestError Book
  entered d t price r stop target b =
      lift_cost (s.cost_model (s.arithmetic.mul price r.quantity) (entry_side d.result_action))
      >>= λ cost. ok (record b { position = some (opened d t r.quantity price stop target cost) })

  abbrev pub turned_down : ℕ → PolicyDecision → Book → Book
  turned_down t r b = record b { rejected = b.rejected ++ (t, r.reason) ∷ [] }

  abbrev pub enter_with :
      DecisionResult → ℕ → ℤ → PolicyDecision → Option ℤ → List ℤ → Book → Result BacktestError Book
  enter_with d t price r (some stop) (target ∷ _) b =
      if r.is_approved then entered d t price r stop target b else ok (turned_down t r b)
  enter_with d t price r _ _ b = ok (turned_down t r b)

  -- A queued entry, at the candle's open.
  unfoldable pub enter : DecisionResult → Candle → Book → Result BacktestError Book
  enter d c b =
      let price = slipped s.arithmetic c.open_price d.result_action s.config.slippage_bps in
      enter_with d c.timestamp price (s.risk_policy d b.equity price) d.stop d.targets b

  unfoldable pub execute_pending :
      DecisionResult → Candle → Option Position → Book → Result BacktestError Book
  execute_pending d c (some p) b =
      if is_exit d.result_action then close_book p c.timestamp c.open_price at_signal b else ok b
  execute_pending d c none b = if is_entry d.result_action then enter d c b else ok b

  -- `if pending is not None`
  unfoldable pub at_open : Candle → Book → Result BacktestError Book
  at_open c b = elim b.pending [
    | none ↦ ok b
    | some d ↦ execute_pending d c b.position b >>= λ b'. ok (unqueued b')
  ]

  abbrev pub exit_at :
      Position → Candle → Option (ℤ × ExitReason) → Book → Result BacktestError Book
  exit_at p c none b = ok b
  exit_at p c (some (raw, reason)) b = close_book p c.timestamp raw reason b

  -- `if position is not None` and an exit within the candle.
  unfoldable pub within : Candle → Book → Result BacktestError Book
  within c b = elim b.position [ none ↦ ok b | some p ↦ exit_at p c (intrabar_exit p c) b ]

  abbrev pub unrealized : ℤ → Option Position → ℤ
  unrealized close none = pos 0
  unrealized close (some p) =
      let a = s.arithmetic in
      a.mul (a.mul (close -ℤ p.held_price) p.held_quantity) (sign_of a p.held_direction)
      -ℤ p.entry_cost

  abbrev pub drawdown_of : ℤ → ℤ → ℤ
  drawdown_of peak equity = if peak ==ℤ pos 0 then pos 0 else s.arithmetic.div (peak -ℤ equity) peak

  -- The points of the curves.
  unfoldable pub mark : Candle → Book → Book
  mark c b =
      let marked = b.equity +ℤ unrealized c.close b.position in
      let peak = max_ℤ b.peak marked in
      record b {
        peak = peak;
        equity_curve = b.equity_curve ++ (c.timestamp, marked) ∷ [];
        drawdown_curve = b.drawdown_curve ++ (c.timestamp, drawdown_of peak marked) ∷ [];
      }

  -- One candle, the last of those seen.
  unfoldable pub process : List Candle → Candle → Book → Result BacktestError Book
  process seen c b = do
    opened ← at_open c b
    held ← within c opened
    ok (mark c (queue (s.decision_provider seen) held))

  unfoldable pub run_loop : List Candle → List Candle → Book → Result BacktestError Book
  run_loop seen [] b = ok b
  run_loop seen (c ∷ cs) b = process (seen ++ c ∷ []) c b >>= run_loop (seen ++ c ∷ []) cs

  abbrev pub remarked : ℕ → Book → Book
  remarked t b =
      let peak = max_ℤ b.peak b.equity in
      record b {
        peak = peak;
        equity_curve = set_last (t, b.equity) b.equity_curve;
        drawdown_curve = set_last (t, drawdown_of peak b.equity) b.drawdown_curve;
      }

  -- `if position is not None and candles`
  unfoldable pub finish : List Candle → Book → Result BacktestError Book
  finish [] b = ok b
  finish (c ∷ cs) b = elim b.position [
    | none ↦ ok b
    | some p ↦
        let final = last_candle c cs in
        close_book p final.timestamp final.close at_end_of_data b >>= λ b'.
        ok (remarked final.timestamp b')
  ]

abbrev pub candle_differs : Candle → Candle → Bool
candle_differs a b =
    not (a.instrument_id == b.instrument_id) || not (a.timeframe_seconds == b.timeframe_seconds)

abbrev pub any_differs : List Candle → Bool
any_differs [] = false
any_differs (c ∷ cs) = any (λ x. candle_differs x c) (c ∷ cs)

abbrev pub any_not_later : List Candle → Bool
any_not_later [] = false
any_not_later (c ∷ []) = false
any_not_later (c ∷ d ∷ cs) = leb d.timestamp c.timestamp || any_not_later (d ∷ cs)

-- The tests at the start of `run_backtest`.
unfoldable pub check_candles : List Candle → Result BacktestError (Unit {0})
check_candles cs = do
  raise_if (any (λ c. not c.is_closed) cs) open_candle
  raise_if (any_differs cs) mixed_candles
  raise_if (any_not_later cs) not_chronological

-- The book that `run_backtest` ends with.
unfoldable pub run_book : Setup → List Candle → Result BacktestError Book
run_book s cs = do check_candles cs; b ← run_loop s [] cs (new_book s.config); finish s cs b
