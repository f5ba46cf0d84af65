-- ===== src/Lib.antt =====
-- Verification of mytradingsystem, a trading platform in Python: orders pass a risk evaluation, an
-- event-sourced lifecycle and a reconciliation with the broker, or are filled on paper; market data
-- is validated, aggregated and replayed without its future; a strategy's signal passes the gates of
-- the decision engine; a backtest runs such decisions over past candles; tokens guard the API.
--
-- The parts and their files:
--
-- - Base: shared names. Base/Int has the integers over the native numbers, Base/Decimal the
--   products and quotients of Decimal as a parameter, Base/Results the calls that may raise,
--   Base/Dicts the dicts and tables by key, Base/Time the datetimes.
-- - Domain: packages/domain/models.py, the enumerations and the candle with its validation.
-- - Execution/StateMachine: packages/execution/state_machine.py. `OrderState` is the frozen
--   dataclass; `apply_order_event` is the handler, with its checks in the source's order.
-- - Execution/Reconciliation: packages/execution/reconciliation.py. `reconcile_orders` builds the two
--   indices and the list of issues as the source's loops do.
-- - Execution/Repository: packages/execution/repository.py. The state is the two tables of
--   packages/database/models.py; `apply` is a load followed by `apply_loaded`, which is a definition
--   of its own because another session may commit between the two.
-- - Replay/Engine, Replay/Store, Replay/Coordinator and Replay/Scheduler: packages/replay/engine.py,
--   persistence.py, service.py and scheduler.py. The coordinator rebuilds an engine from a stored
--   session, moves it and saves its checkpoint; the scheduler calls the coordinator in a loop.
-- - Risk/Limits and Risk/Engine: packages/risk_engine/engine.py. `evaluate_order_risk` is split at
--   its branches into `evaluate_exit`, `evaluate_entry` and `size_entry`.
-- - Risk/Configuration and Risk/Authority: packages/risk_engine/persistence.py.
--   `load_configuration` and `set_kill_switch` are the configuration store;
--   `evaluate_with_configuration` puts the stored kill switch into the context and calls
--   `authority_evaluate`, which keeps one decision for each intent.
-- - Replay/Runs: packages/replay/task_persistence.py, with the request and the status of tasks.py.
-- - Replay/Datasets: packages/replay/datasets.py. `validated_candles` is the verification that every
--   load repeats.
-- - MarketData/Validation: packages/market_data/validation.py. `validate` folds `validate_one` over
--   the records; the local collections of the loop are the record `State`.
-- - MarketData/Grouping and MarketData/Aggregation: packages/market_data/aggregation.py. A dict whose
--   items are sorted is kept in the order of its keys.
-- - Backtesting/Costs: packages/backtesting/costs.py and the generic cost model of
--   packages/backtesting/engine.py.
-- - Backtesting/Policy, Backtesting/Positions, Backtesting/Loop, Backtesting/Metrics and
--   Backtesting/Runs: packages/backtesting/engine.py. The local variables of the loop are the record
--   `Book`; `process` does what one candle does, and `finish` closes what is left open.
-- - Backtesting/Splits, Backtesting/MonteCarlo and Backtesting/Selection:
--   packages/backtesting/validation.py.
-- - Paper/Tables, Paper/Broker, Paper/Columns and Paper/Valuation: packages/paper_trading/broker.py on
--   the tables of packages/database/models.py. `execute_market` is split at its steps into
--   `check_request`, `find_order` and `fill_order`; `mark_to_market` folds `mark_one` over the
--   positions.
-- - Auth/Tokens and Auth/Revocation: packages/auth/tokens.py and packages/auth/persistence.py.
-- - Decision: packages/decision_engine/engine.py. `decide` collects the reasons against the signal in
--   `all_reasons` and turns an entry with a reason into no trade.
--
-- How values are modelled. A `Decimal` is an integer count of a quantum, so that order, sums,
-- differences, `min` and `abs` are exact, as they are in Python within 28 digits; products and
-- quotients are the parameter `Arithmetic`, with no law but those that a theorem names. A `datetime` is
-- `aware` of an instant in microseconds, or `naive`. A UUID is a number. A call that raises is an
-- `err` with the exception and, where there is state, the state it leaves. A transaction that raises
-- is rolled back by its caller, so the tables are those from before. The rows of a session hold the
-- values that were written, for a commit does not expire them; what a `Numeric` column keeps of a
-- value that is read back is a parameter (`Columns` in Paper/Columns, `column` in Risk/Authority), with
-- `reread` for a table that is read back, and the theorems there name the values that must fit.
-- Elsewhere a value is assumed to fit its column. Versions, indices
-- and counts that the source never makes negative are natural numbers.
--
-- Bounds and fuel. `bisect_loop` takes the length of the list as fuel: each round at least halves
-- the part that is left. The loop of the scheduler is recursion on the steps that are left. The
-- loop of the walk-forward folds, which is `while True`, takes one more than the number of values:
-- an offset grows in each round, and no window past the values fits. Other loops are recursion on
-- their list or their count.
--
-- Parameters. The zone Asia/Kolkata (`Zone`), SHA-256 and the JSON of a candle (`Digest`,
-- `CandleJson`), SHA-256 of a token, the fingerprint of a risk request and the version of a
-- configuration (`Hashes`), products and quotients of Decimal (`Arithmetic`), the floats of the
-- Sharpe ratio (`Floats`), the median and the rounding of percentiles (`Statistics`), the callbacks
-- of a selection, the decision provider, risk policy and cost model of a backtest, the cost model
-- of the paper broker, what a column keeps of a value, fresh identifiers, the loader of datasets, and
-- what surrounds the scheduler (`World`: stop requests, clock, commits of other sessions).
--
-- Not modelled: the HTTP API and web console, broker adapters, options analytics and machine learning
-- (floating point), configuration, logging, migrations, foreign keys and check constraints of the
-- tables; and, so far, the task manager of the replay, the ingestion and the repository of market
-- data, strategies, indicators, the smart-money analysis and the report on a backtest.
pub mod Base
pub mod Domain
pub mod Execution
pub mod Replay
pub mod Risk
pub mod MarketData
pub mod Backtesting
pub mod Paper
pub mod Auth
pub mod Decision
