-- ===== src/Feed.antt =====
-- common/feed: the delivery of market data to the workers.
mod Tests
pub mod WorkerQueue
pub mod Reconnect
pub mod Hub
pub mod Fanout
