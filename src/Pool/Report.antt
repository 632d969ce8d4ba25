-- ===== src/Pool/Report.antt =====
-- `report_payload` of scripts/worker_pool.py, with `status_payload` and what it reads. The commands
-- are constructors. `max_workers` is the default of the configuration.
use ao_operator.Base.{
  ℕ, ◌-◌, max, Bool, not, ◌&&◌, Option, none, some, List, ◌==◌, ltb, leb, if◌then◌else◌, filter,
  length, map, count,
}
use ao_operator.Text.{Text}
use ao_operator.Queue.{Entry, Dir, Queue, is_visible, sort_entries, slug_from_task}
use ao_operator.Pool.Limits.{
  Line, RateEvent, desired_worker_count, adjusted_rate_limit_floor, recent_provider_rate_limits,
  recent_provider_rate_limit_events,
}

pub record Counts : Type 0 where
  pub pending : ℕ
  pub in_flight : ℕ
  pub done : ℕ
  pub failed : ℕ

pub record TaskReport : Type 0 where
  pub slug : Text
  pub age_seconds : ℕ
  pub stale : Bool

pub data QueueAction : Type 0 where
  recover_stale run_pool inspect_failed idle : QueueAction

pub data Command : Type 0 where
  pool_once : (workers : ℕ) → Command
  list_failed : Command

pub record Report : Type 0 where
  pub counts : Counts
  pub pending : List Text
  pub in_flight : List TaskReport
  pub done : List Text
  pub failed : List Text
  pub recent_429s : ℕ
  pub floor : ℕ
  pub recent_events : List RateEvent
  pub stale_in_flight : ℕ
  pub suggested_workers : ℕ
  pub suggested_action : QueueAction
  pub suggested_command : Option Command

unfoldable pub count_visible : Dir → ℕ
unfolding is_visible
count_visible d = length (filter is_visible d)

unfoldable pub counts_of : Queue → Counts
unfolding count_visible
counts_of q = record {
  pending = count_visible q.pending;
  in_flight = count_visible q.in_flight;
  done = count_visible q.done;
  failed = count_visible q.failed;
}

unfoldable pub task_slugs_for_state : Dir → List Text
unfolding sort_entries is_visible slug_from_task
task_slugs_for_state d = map (λ e. slug_from_task e.name) (filter is_visible (sort_entries d))

unfoldable pub task_report : ℕ → ℕ → Entry → TaskReport
unfolding slug_from_task
task_report stale_after now e = record {
  slug = slug_from_task e.name;
  age_seconds = now - e.mtime;
  stale = not (stale_after == 0) && leb stale_after (now - e.mtime);
}

unfoldable pub in_flight_task_reports : ℕ → ℕ → Queue → List TaskReport
unfolding sort_entries is_visible task_report
in_flight_task_reports stale_after now q =
    map (task_report stale_after now) (filter is_visible (sort_entries q.in_flight))

unfoldable pub suggested_queue_action : Counts → ℕ → ℕ → QueueAction
suggested_queue_action counts stale_count suggested_workers =
    if ltb 0 stale_count
    then recover_stale
    else if ltb 0 counts.pending && ltb 0 suggested_workers
    then run_pool
    else if ltb 0 counts.failed
    then inspect_failed
    else idle

unfoldable pub command_of : QueueAction → ℕ → Option Command
command_of recover_stale n = some (pool_once (max 1 n))
command_of run_pool n = some (pool_once (max 1 n))
command_of inspect_failed n = some list_failed
command_of idle n = none

abbrev pub cap_of : ℕ → Option ℕ → ℕ
cap_of max_workers none = max_workers
cap_of max_workers (some n) = n

unfoldable pub report_payload : ℕ → Option ℕ → ℕ → ℕ → ℕ → Queue → List Line → Report
unfolding counts_of task_slugs_for_state in_flight_task_reports suggested_queue_action command_of
    recent_provider_rate_limits recent_provider_rate_limit_events
report_payload max_workers workers stale_after window now q lines =
    let cap = cap_of max_workers workers in
    let recent = recent_provider_rate_limits window now lines in
    let floor = adjusted_rate_limit_floor cap recent 1 in
    let suggested = desired_worker_count q cap floor in
    let in_flight = in_flight_task_reports stale_after now q in
    let stale_count = count (λ (t : TaskReport). t.stale) in_flight in
    let action = suggested_queue_action (counts_of q) stale_count suggested in
    record {
      counts = counts_of q;
      pending = task_slugs_for_state q.pending;
      in_flight = in_flight;
      done = task_slugs_for_state q.done;
      failed = task_slugs_for_state q.failed;
      recent_429s = recent;
      floor = floor;
      recent_events = recent_provider_rate_limit_events window 5 now lines;
      stale_in_flight = stale_count;
      suggested_workers = suggested;
      suggested_action = action;
      suggested_command = command_of action suggested;
    }
