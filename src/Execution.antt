-- ===== src/Execution.antt =====
-- common/execution/lifecycle.py over the repository.
pub mod Lifecycle
pub mod Correlation
mod Tests
