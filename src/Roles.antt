-- ===== src/Roles.antt =====
-- scripts/factory_run.py: the results of the roles, the slice quorum, and what blocks a run.
mod Tests
mod Ids
mod Quorum
mod Groups
mod Aggregate
mod Runtime
mod Verdict
mod Quiet
pub use Ids.{implementer, reviewer, implementer_prefix, reviewer_prefix}
unfoldable pub use Ids.{is_slice_reviewer}
