-- ===== src/Warmup.antt =====
-- The parts of common/warmup: the buckets of a session.
pub mod Buckets
