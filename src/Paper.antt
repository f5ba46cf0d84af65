-- ===== src/Paper.antt =====
-- packages/paper_trading: market orders filled on paper, with their accounts.
pub mod Tables
pub mod Broker
pub mod Columns
pub mod Valuation
pub mod Runs
mod Tests
