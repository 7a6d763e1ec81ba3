-- ===== src/Aggregator.antt =====
-- services/preprocessor/internal/aggregator: ticks become OHLCV bars.
pub mod Float
pub mod Candle
pub mod Manager
pub mod MultiSink
