-- ===== src/Risk.antt =====
-- packages/risk_engine: the pre-trade evaluation of an order.
pub mod Limits
pub mod Engine
pub mod Configuration
pub mod Authority
mod Tests
