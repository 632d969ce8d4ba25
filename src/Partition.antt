-- ===== src/Partition.antt =====
-- scripts/auto_partition.py: the fan-out of a brief's write paths into slices.
mod Defs
mod Spread
mod Tests
unfoldable pub use Defs.*
pub use Spread.{owners, Splits, partition_lem}
