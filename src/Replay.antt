-- ===== src/Replay.antt =====
-- packages/replay: the replay of closed candles, its persisted sessions, and the scheduler.
pub mod Engine
pub mod Store
pub mod Coordinator
pub mod Scheduler
pub mod Runs
pub mod Datasets
mod Tests
