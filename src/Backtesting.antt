-- ===== src/Backtesting.antt =====
-- packages/backtesting: the cost models, and the engine with its sizing policy, its positions, its
-- loop over the candles and its metrics.
pub mod Costs
pub mod Policy
pub mod Positions
pub mod Loop
pub mod Metrics
pub mod Runs
pub mod Splits
pub mod Selection
pub mod MonteCarlo
mod Tests
