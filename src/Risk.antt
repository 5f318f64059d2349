-- ===== src/Risk.antt =====
-- The limits that stop or close trading: common/engine/daily_guard.py, common/engine/risk_managers.py,
-- common/risk/squareoff.py and common/engine/square_off.py.
mod Tests
pub mod DailyGuard
pub mod SquareOff
