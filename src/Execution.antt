-- ===== src/Execution.antt =====
-- packages/execution: the order lifecycle, its repository and broker reconciliation.
pub mod StateMachine
pub mod Reconciliation
pub mod Repository
mod Tests
