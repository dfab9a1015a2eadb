-- ===== src/CandlesHttp.antt =====
-- internal/feature/candles/candleshttp: the handlers in front of the candles.
pub mod Handler
pub mod Checks
pub mod Asked
