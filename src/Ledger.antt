-- ===== src/Ledger.antt =====
-- scripts/obligation_ledger.py: obligations extracted from a specification, and their check against
-- the files of a repository.
mod Tests
mod Defs
mod Extract
mod Laws
unfoldable pub use Defs.*
