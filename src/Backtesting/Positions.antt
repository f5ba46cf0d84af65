-- ===== src/Backtesting/Positions.antt =====
-- packages/backtesting/engine.py: positions, their exits and the trades they become.
pub mod Fills
use mytradingsystem.Base.{
  Arithmetic, Bool, Option, Result, ℤ, err, false, if◌then◌else◌, ok, pos, true, ℕ, String, leb_ℤ,
  negsuc, ◌+ℤ◌, ◌-ℤ◌, ◌>>=◌, neg, none, some, min_ℤ, max_ℤ,
}
use mytradingsystem.Domain.{Candle, SignalAction, long, short, Side, buy, sell}
use mytradingsystem.Decision.{DecisionResult}
use mytradingsystem.Backtesting.Costs.{CostModel, CostError}
use mytradingsystem.Backtesting.Policy.{BacktestError, no_cost}

pub data ExitReason : Type 0 where
  at_stop at_target at_signal at_end_of_data : ExitReason

pub record Trade : Type 0 where
  pub direction : SignalAction
  pub quantity : ℤ
  pub signal_at : ℕ
  pub entered_at : ℕ
  pub exited_at : ℕ
  pub entry_price : ℤ
  pub exit_price : ℤ
  pub trade_stop : ℤ
  pub trade_target : ℤ
  pub gross_pnl : ℤ
  pub costs : ℤ
  pub net_pnl : ℤ
  pub exit_reason : ExitReason
  pub strategy : String
  pub data_snapshot_id : String

-- `_Position`; the direction is that of its decision.
pub record Position : Type 0 where
  pub decision : DecisionResult
  pub held_direction : SignalAction
  pub held_quantity : ℤ
  pub held_signal_at : ℕ
  pub held_entered_at : ℕ
  pub held_price : ℤ
  pub held_stop : ℤ
  pub held_target : ℤ
  pub entry_cost : ℤ

abbrev pub is_long : SignalAction → Bool
is_long long = true
is_long _ = false

abbrev pub lift_cost : Result CostError ℤ → Result BacktestError ℤ
lift_cost (ok x) = ok x
lift_cost (err e) = err (no_cost e)

-- The stop and the target of a long position, or of a short one: the stop goes first.
abbrev pub exit_within : Bool → ℤ → ℤ → Candle → Option (ℤ × ExitReason)
exit_within true stop target c =
    if leb_ℤ c.low stop
    then some (min_ℤ c.open_price stop, at_stop)
    else if leb_ℤ target c.high
    then some (max_ℤ c.open_price target, at_target)
    else none
exit_within false stop target c =
    if leb_ℤ stop c.high
    then some (max_ℤ c.open_price stop, at_stop)
    else if leb_ℤ c.low target
    then some (min_ℤ c.open_price target, at_target)
    else none

-- `_intrabar_exit`
unfoldable pub intrabar_exit : Position → Candle → Option (ℤ × ExitReason)
intrabar_exit p c = exit_within (is_long p.held_direction) p.held_stop p.held_target c

module _ (a : Arithmetic) where
  -- `_slipped`
  unfoldable pub slipped : ℤ → SignalAction → ℤ → ℤ
  slipped price action bps =
      a.mul price
        (a.whole (pos 1) +ℤ a.div (if is_long action then bps else neg bps) (a.whole (pos 10000)))

  abbrev pub sign_of : SignalAction → ℤ
  sign_of action = if is_long action then a.whole (pos 1) else a.whole (negsuc 0)

  abbrev pub exit_action : SignalAction → SignalAction
  exit_action direction = if is_long direction then short else long

  abbrev pub exit_side : SignalAction → Side
  exit_side direction = if is_long direction then sell else buy

  abbrev pub trade_of : Position → ℕ → ℤ → ExitReason → ℤ → Trade
  trade_of p t price reason exit_cost =
      let gross =
        a.mul (a.mul (price -ℤ p.held_price) p.held_quantity) (sign_of p.held_direction) in
      let costs = p.entry_cost +ℤ exit_cost in
      record {
        direction = p.held_direction;
        quantity = p.held_quantity;
        signal_at = p.held_signal_at;
        entered_at = p.held_entered_at;
        exited_at = t;
        entry_price = p.held_price;
        exit_price = price;
        trade_stop = p.held_stop;
        trade_target = p.held_target;
        gross_pnl = gross;
        costs = costs;
        net_pnl = gross -ℤ costs;
        exit_reason = reason;
        strategy = p.decision.result_strategy;
        data_snapshot_id = p.decision.result_snapshot_id;
      }

  -- `_close_position`
  unfoldable pub close_position :
      CostModel → ℤ → Position → ℕ → ℤ → ExitReason → Result BacktestError Trade
  close_position cost bps p t raw reason =
      let price = slipped raw (exit_action p.held_direction) bps in
      lift_cost (cost (a.mul price p.held_quantity) (exit_side p.held_direction)) >>= λ exit_cost.
      ok (trade_of p t price reason exit_cost)
