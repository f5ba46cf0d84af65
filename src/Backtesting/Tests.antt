-- ===== src/Backtesting/Tests.antt =====
-- A run over four candles in hundredths: one long trade that reaches its target. The theorems at it.
use mytradingsystem.Backtesting.Positions.Fills.{
  Filled, TouchesStop, TouchesTarget, intrabar_exit-Filled,
}
use mytradingsystem.Backtesting.Policy.Sizing.{Sized, TruncatesNear, fixed_fraction-Sized}
use mytradingsystem.Backtesting.Runs.Summary.{
  HasPast, IsBalanced, run_backtest-Chronicle, run_backtest-HasPast, run_backtest-IsBalanced,
}
use mytradingsystem.Backtesting.Loop.Chronology.{IsHonest}
use mytradingsystem.Backtesting.Loop.Times.{Chronicle}
use mytradingsystem.Base.{
  List, Result, hundredths, pos, ℕ, ℤ, ◌+ℤ◌, [], err, if◌then◌else◌, none, ok, some, sum_ℤ, ◌++◌,
  ◌-ℤ◌, ◌∷◌, ◌≡◌, length, ltb_ℤ, refl, true, ◌==◌, arith, map, ◌↔◌, pos_part, sub_ℕ, ◌*◌, ◌+◌,
  neg_part, ◌≤◌, int_laws, ◌/◌,
}
use mytradingsystem.Domain.{Candle, CandleIsValid, SignalAction, long, hold}
use mytradingsystem.Decision.{DecisionResult, passed_gates}
use mytradingsystem.Replay.Datasets.{last_time}
use mytradingsystem.Backtesting.Costs.{generic_cost}
use mytradingsystem.Backtesting.Policy.{
  BacktestError, BacktestConfig, check_config, FixedFraction, fixed_fraction, size_position,
  PolicyDecision,
}
use mytradingsystem.Backtesting.Positions.{
  Position, intrabar_exit, at_target, slipped, close_position, ExitReason,
}
use mytradingsystem.Backtesting.Loop.{
  Setup, Book, new_book, opened, close_book, enter, execute_pending, at_open, within, queue, mark,
  process, run_loop, finish, check_candles, run_book,
}
use mytradingsystem.Backtesting.Metrics.{Floats}
use mytradingsystem.Backtesting.Runs.{result_of, run_backtest}

abbrev config : BacktestConfig
config = record {
  initial_capital = pos 1000000;
  slippage_bps = pos 0;
  variable_cost_bps = pos 0;
  flat_cost_per_order = pos 100;
  maximum_position_notional_fraction = pos 100;
  annualization_sessions = pos 252;
}

config_passes : check_config hundredths config ≡ ok config
unfolding check_config
config_passes = refl

abbrev candle_of : ℕ → ℕ → ℕ → ℕ → ℕ → Candle
candle_of t o h l c = record {
  instrument_id = 1;
  timestamp = t;
  timeframe_seconds = 60;
  open_price = pos o;
  high = pos h;
  low = pos l;
  close = pos c;
  volume = pos 3;
  open_interest = none;
  is_closed = true;
}

abbrev first : List Candle
first = candle_of 0 10000 10000 10000 10000 ∷ candle_of 60 10000 10100 9900 10050 ∷ []

abbrev third : Candle
third = candle_of 120 10100 10500 10000 10300

abbrev last : Candle
last = candle_of 180 10300 10300 10300 10300

abbrev candles : List Candle
candles = first ++ third ∷ last ∷ []

abbrev decision_at : ℕ → SignalAction → DecisionResult
decision_at t action = record {
  result_id = 1;
  result_timestamp = t;
  result_instrument_id = 1;
  result_strategy = "fixture";
  result_strategy_version = "1";
  decision_version = "1";
  result_action = action;
  result_confidence = pos 80;
  factors = [];
  strategy_action = action;
  strategy_confidence = pos 80;
  result_reasons = [];
  entry = some (pos 10000);
  stop = some (pos 9800);
  targets = pos 10400 ∷ [];
  expected_risk_reward = none;
  risk_fraction = pos 1;
  result_snapshot_id = "snapshot-1";
  requires_risk_approval = true;
  result_explanation = passed_gates;
}

-- Long after the first candle.
abbrev provider : List Candle → DecisionResult
provider seen = decision_at (last_time seen) (if length seen == 1 then long else hold)

abbrev fraction : FixedFraction
fraction = record { maximum_risk_fraction = pos 1; maximum_notional_fraction = pos 100 }

abbrev setup : Setup
setup = record {
  arithmetic = hundredths;
  config = config;
  decision_provider = provider;
  risk_policy = fixed_fraction hundredths fraction;
  cost_model = generic_cost hundredths (pos 0) (pos 100);
}

-- Whole numbers in place of floats.
abbrev toy_floats : Floats ℤ
toy_floats = record {
  of_decimal = λ x. x;
  to_decimal = λ x. x;
  of_int = λ n. n;
  sum = sum_ℤ;
  sub = λ x y. x -ℤ y;
  mul = hundredths.mul;
  div = λ x y. x;
  square = λ x. hundredths.mul x x;
  sqrt = λ x. x;
  is_positive = λ x. ltb_ℤ (pos 0) x;
}

abbrev book_of : Result BacktestError Book → Book
book_of (ok b) = b
book_of (err e) = new_book config

abbrev ending : List Candle → Book
ending cs = book_of (run_book setup cs)

ran : run_backtest toy_floats setup candles ≡ ok (result_of toy_floats setup (ending candles))
unfolding run_backtest run_book check_candles run_loop process at_open within queue mark
    execute_pending enter close_book close_position intrabar_exit slipped fixed_fraction
    size_position finish generic_cost ◌+ℤ◌ ◌-ℤ◌
ran = refl

-- The third candle reaches the target, after an entry at the second candle's open.
reaches_target :
    map {B = ℕ × ℕ × ExitReason}
      (λ t. (t.entered_at, t.exited_at, t.exit_reason))
      (ending candles).trades
    ≡ (60, 120, at_target) ∷ []
unfolding run_book check_candles run_loop process at_open within queue mark execute_pending enter
    close_book close_position intrabar_exit slipped fixed_fraction size_position finish generic_cost
    ◌+ℤ◌ ◌-ℤ◌
reaches_target = refl

run_backtest-IsBalanced_example :
    IsBalanced toy_floats setup candles (result_of toy_floats setup (ending candles))
run_backtest-IsBalanced_example = run_backtest-IsBalanced toy_floats setup candles ran

abbrev falling : List Candle
falling = first ++ candle_of 120 10000 10000 9700 9700 ∷ []

fell : run_backtest toy_floats setup falling ≡ ok (result_of toy_floats setup (ending falling))
unfolding run_backtest run_book check_candles run_loop process at_open within queue mark
    execute_pending enter close_book close_position intrabar_exit slipped fixed_fraction
    size_position finish generic_cost ◌+ℤ◌ ◌-ℤ◌
fell = refl

run_backtest-HasPast_example :
    (b : Book) × (run_loop setup [] first (new_book config) ≡ ok b)
    × HasPast first b (result_of toy_floats setup (ending candles))
    × HasPast first b (result_of toy_floats setup (ending falling))
run_backtest-HasPast_example =
    run_backtest-HasPast toy_floats setup first third (candle_of 120 10000 10000 9700 9700)
      (last ∷ []) [] ran fell

last_time-snoc : (cs : List Candle) (c : Candle) → last_time (cs ++ c ∷ []) ≡ c.timestamp
last_time-snoc [] c = refl
last_time-snoc (d ∷ []) c = refl
last_time-snoc (d ∷ e ∷ cs) c = last_time-snoc (e ∷ cs) c

setup-IsHonest : IsHonest setup
setup-IsHonest seen c = omega (arith, last_time-snoc seen c)

run_backtest-Chronicle_example : Chronicle (ending candles).trades
run_backtest-Chronicle_example = run_backtest-Chronicle toy_floats setup candles setup-IsHonest ran

abbrev held : Position
held = opened setup (decision_at 0 long) 60 (pos 100) (pos 10000) (pos 9800) (pos 10400) (pos 100)

third-IsValid : CandleIsValid third
third-IsValid = record {
  timeframe_positive = ground arith;
  low_positive = ground arith;
  low_open = ground arith;
  low_close = ground arith;
  open_high = ground arith;
  close_high = ground arith;
  volume_not_negative = ground arith;
}

intrabar_exit-Filled_example :
    ((price : ℤ) (reason : ExitReason)
      → intrabar_exit held third ≡ some (price, reason)
      → Filled true (pos 9800) (pos 10400) third price reason)
    × ((intrabar_exit held third ≡ none)
        ↔ (¬ TouchesStop true (pos 9800) third × ¬ TouchesTarget true (pos 10400) third))
intrabar_exit-Filled_example = intrabar_exit-Filled held third third-IsValid

sub_parts : (m n : ℕ) → pos_part (sub_ℕ m n) + n ≡ neg_part (sub_ℕ m n) + m
sub_parts m n = ground arith

hundredths-TruncatesNear : TruncatesNear hundredths
hundredths-TruncatesNear x =
    let t = hundredths.truncate x in
    let near : pos_part t * 100 + neg_part x ≤ pos_part x + (neg_part t * 100 + 99) =
      omega (arith, sub_parts (pos_part x / 100) (neg_part x / 100)) in
    let whole : pos_part (hundredths.whole t) + neg_part t * 100
        ≡ neg_part (hundredths.whole t) + pos_part t * 100 =
      sub_parts (pos_part t * 100) (neg_part t * 100) in
    omega (int_laws, near, whole)

abbrev approval : PolicyDecision
approval = fixed_fraction hundredths fraction (decision_at 0 long) (pos 1000000) (pos 10000)

is_given : approval.is_approved ≡ true
unfolding fixed_fraction size_position ◌+ℤ◌ ◌-ℤ◌
is_given = refl

fixed_fraction-Sized_example :
    Sized hundredths fraction (decision_at 0 long) (pos 1000000) (pos 10000) approval.quantity
fixed_fraction-Sized_example =
    fixed_fraction-Sized hundredths fraction (decision_at 0 long) (pos 1000000) (pos 10000)
      hundredths-TruncatesNear is_given
