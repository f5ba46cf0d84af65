-- ===== src/MarketData/Validation/Drift.antt =====
-- What a candle that is refused for its time leaves behind.
use mytradingsystem.MarketData.Validation.{stream_keys}
