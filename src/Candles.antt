-- ===== src/Candles.antt =====
-- common/candles: the aggregation of ticks into candles, by the hub and by the engine.
mod Tests
pub mod Interval
pub mod Aggregator
pub mod Builder
