-- ===== src/Candles.antt =====
-- Candles: internal/feature/candles.
pub mod Candle
pub mod Aggregation
pub mod Dedup
pub mod Ingest
pub mod Quotes
pub mod Caching
