-- ===== src/Queue.antt =====
-- scripts/factory_queue.py: the queue on the file system. Task files move through the directories
-- pending, in-flight, done and failed by renames.
mod Names
mod Slug
mod Defs
mod Entries
mod Moves
mod Recovery
mod Claim
mod Enqueue
mod Unique
mod Stale
mod Size
mod Tests
pub use Defs.{Entry, Dir, Queue, QueueTask, Place, QueueError, Outcome, empty_queue}
unfoldable pub use Names.{slug_from_task, task_filename}
unfoldable pub use Defs.{
  find_entry, remove_entry, put_entry, is_visible, insert_sorted, sort_entries, pending_tasks,
  queue_depth, claim_one, mark_done, mark_failed, recover_stale_inflight, enqueue,
}
pub use Claim.{Takes, claim_one-Takes}
pub use Size.{
  unfinished, unfinished-claim_one, unfinished-mark_done, unfinished-mark_failed, find-mark_done,
  find-mark_failed, in_flight-mark_done, in_flight-mark_failed, unfinished-recover_stale_inflight,
  mark_done-ok, mark_failed-ok,
}
