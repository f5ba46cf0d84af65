-- ===== src/MarketData.antt =====
-- packages/market_data: the checks that raw candles pass before they are stored.
pub mod Validation
pub mod Grouping
pub mod Aggregation
mod Tests
