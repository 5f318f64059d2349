-- ===== src/Store.antt =====
-- common/execution/repository.py over the schema of common/persistence/migrations/versions: the
-- tables as lists of rows. A method is one transaction, so it returns the new database, or raises
-- and leaves it as it was.
mod Tests
pub mod Rows
pub mod Positions
pub mod States
pub mod Fills
pub mod Intents
