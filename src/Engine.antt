-- ===== src/Engine.antt =====
-- The parts of common/engine: the square-off authority, the hard stop, the position manager and the session.
mod Tests
pub mod Authority
pub mod Trades
pub mod Positions
pub mod Session
