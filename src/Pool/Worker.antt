-- ===== src/Pool/Worker.antt =====
-- scripts/worker_pool.py: one task through a worker, a batch of workers, and the foreground loop.
-- The threads of a batch run one after the other here: each is a claim under the process lock and
-- renames of its own file, so every interleaving is a sequence of steps of the queue.
use ao_operator.Base.{
  ℕ, zero, suc, ◌+◌, Bool, true, false, Option, none, some, List, [], ◌∷◌, ◌++◌, ◌==◌,
  if◌then◌else◌, is_some,
}
use ao_operator.Text.{Text}
use ao_operator.Queue.{
  Queue, QueueTask, Outcome, claim_one, mark_done, mark_failed, recover_stale_inflight,
}
use ao_operator.Pool.Limits.{Line, event, desired_worker_count, provider_rate_limit_floor}
use ao_operator.Pool.Signal.{provider_rate_limit_signal}

-- The exit status of a process: `negsuc n` is -(n + 1), as for a process that a signal ended.
pub data ℤ : Type 0 where
  pos : ℕ → ℤ
  negsuc : ℕ → ℤ

abbrev pub is_zero : ℤ → Bool
is_zero (pos n) = n == 0
is_zero (negsuc n) = false

pub record RunnerResult : Type 0 where
  pub returncode : ℤ
  pub output : Text
  pub provider_rate_limit_signal : Option Text

-- What a worker calls outside of the queue, by the slug of its task: all that comes before the run
-- (false where the set-up of its workspace, by `git worktree add`, or the scrub of its notes raises),
-- the runner, which returns, and the copy of the artifacts (none where it raises `OSError` or
-- `shutil.Error`).
pub record Host : Type 0 where
  pub prepare_task_workspace : Text → Bool
  pub runner : Text → RunnerResult
  pub promote_task_artifacts : Text → Option (List Text)

-- The arguments that all workers of a run share; `recover_stale_after_seconds` is none or 0 to turn
-- recovery off, and `now` is the time that each of the clock's readings gives.
pub record Settings : Type 0 where
  pub promote_artifacts : Bool
  pub recover_stale_after_seconds : Option ℕ
  pub workers : ℕ
  pub drain : Bool
  pub now : ℕ

pub record WorkerResult : Type 0 where
  pub task : Option QueueTask
  pub returncode : ℤ
  pub promoted_artifacts : List Text
  pub provider_rate_limited : Bool

-- What the workers share: the queue, the telemetry file, and how many claim tokens were drawn.
pub record Pool : Type 0 where
  pub queue : Queue
  pub telemetry : List Line
  pub drawn : ℕ

pub data Exit {ℓ} (A : Type ℓ) : Type ℓ where
  returns : A → Exit A
  raises : Exit A

unfoldable pub recover_stale_if_enabled : Option ℕ → ℕ → Queue → Queue
recover_stale_if_enabled none now q = q
recover_stale_if_enabled (some n) now q = if n == 0 then q else (recover_stale_inflight now n q).0

unfoldable pub record_event : ℕ → Text → Option Text → List Line → List Line
record_event now slug none lines = lines
record_event now slug (some signal) lines = lines ++ event (some now) (some slug) (some signal) ∷ []

-- Python's `or`, by which no signal and the empty one give way.
abbrev pub or_else : Option Text → Option Text → Option Text
or_else none b = b
or_else (some []) b = b
or_else (some (c ∷ a)) b = some (c ∷ a)

abbrev pub failed_if_zero : ℤ → ℤ
failed_if_zero code = if is_zero code then pos 1 else code

-- The exit status after the promotion: a copy that fails turns a success into status 1.
abbrev pub promoted : Bool → Option (List Text) → ℤ → ℤ × List Text
promoted false copied code = (code, [])
promoted true (some files) code = (code, files)
promoted true none code = (failed_if_zero code, [])

abbrev pub finish_with : Pool → Queue × Outcome QueueTask → WorkerResult → Pool × Exit WorkerResult
finish_with p (q, Outcome.ok task) r = (record p { queue = q }, returns r)
finish_with p (q, Outcome.raise e) r = (record p { queue = q }, raises)

abbrev pub idle : WorkerResult
idle = record {
  task = none;
  returncode = pos 0;
  promoted_artifacts = [];
  provider_rate_limited = false;
}

-- The end of a task: done with status 0, failed with any other.
unfoldable pub settle : QueueTask → ℤ → WorkerResult → Pool → Pool × Exit WorkerResult
settle task code r p =
    finish_with p (if is_zero code then mark_done task p.queue else mark_failed task p.queue) r

-- What a run leaves in the telemetry, in the exit status, and in the report.
module _ (host : Host) (s : Settings) (task : QueueTask) (result : RunnerResult) where
  abbrev pub signal_of : Option Text
  signal_of = or_else result.provider_rate_limit_signal (provider_rate_limit_signal result.output)

  abbrev pub status_of : ℤ × List Text
  status_of = promoted s.promote_artifacts (host.promote_task_artifacts task.slug) result.returncode

  abbrev pub report_of : WorkerResult
  report_of = record {
    task = some task;
    returncode = status_of.0;
    promoted_artifacts = status_of.1;
    provider_rate_limited = is_some signal_of;
  }

  abbrev pub logged : Pool → Pool
  logged p = record p { telemetry = record_event s.now task.slug signal_of p.telemetry }

  -- What `process_one` does with the task that it claimed, once its workspace stands.
  unfoldable pub execute : Pool → Pool × Exit WorkerResult
  unfolding record_event provider_rate_limit_signal settle
  execute p = settle task status_of.0 report_of (logged p)

unfoldable pub run_task : Host → Settings → QueueTask → Pool → Pool × Exit WorkerResult
unfolding execute
run_task host s task p =
    if host.prepare_task_workspace task.slug
    then execute host s task (host.runner task.slug) p
    else (p, raises)

-- How the foreground loop ends. It has no bound of its own: `out_of_fuel` is the model's.
pub data Ended : Type 0 where
  finished : List WorkerResult → Ended
  raised out_of_fuel : Ended

-- The results of a batch, of the workers that had a task. A worker that raises makes the batch
-- raise, after the others have ended.
abbrev pub join : Exit WorkerResult → Exit (List WorkerResult) → Exit (List WorkerResult)
join raises rest = raises
join (returns r) raises = raises
join (returns r) (returns rs) = returns (if is_some r.task then r ∷ rs else rs)

abbrev pub extend : List WorkerResult → Pool × Ended → Pool × Ended
extend rs (p, finished more) = (p, finished (rs ++ more))
extend rs (p, other) = (p, other)

module _ (host : Host) (token : ℕ → Text) (s : Settings) where
  abbrev pub process_claimed : Pool → Queue × Option QueueTask → Pool × Exit WorkerResult
  process_claimed p (q, none) = (record p { queue = q }, returns idle)
  process_claimed p (q, some task) =
      run_task host s task (record p { queue = q; drawn = p.drawn + 1 })

  unfoldable pub process_one : Pool → Pool × Exit WorkerResult
  unfolding run_task recover_stale_if_enabled
  process_one p = process_claimed p (
      claim_one (λ i. token (p.drawn + i))
        (recover_stale_if_enabled s.recover_stale_after_seconds s.now p.queue))

  unfoldable pub process_batch : ℕ → Pool → Pool × Exit (List WorkerResult)
  unfolding process_one
  process_batch zero p = (p, returns [])
  process_batch (suc count) p =
      let (p', r) = process_one p in let (p'', rs) = process_batch count p' in (p'', join r rs)

  -- The count of workers that a round asks for.
  unfoldable pub round_count : Pool → ℕ
  unfolding desired_worker_count provider_rate_limit_floor
  round_count p =
      desired_worker_count p.queue s.workers
        (provider_rate_limit_floor s.workers 1800 s.now p.telemetry)

  abbrev pub after_batch : Pool × Ended → Pool × Exit (List WorkerResult) → Pool × Ended
  after_batch again (p, raises) = (p, raised)
  after_batch again (p, returns []) = (p, finished [])
  after_batch again (p, returns (r ∷ rs)) =
      if s.drain then extend (r ∷ rs) again else (p, finished (r ∷ rs))

  unfoldable pub run_foreground : ℕ → Pool → Pool × Ended
  unfolding recover_stale_if_enabled round_count process_batch
  run_foreground zero p = (p, out_of_fuel)
  run_foreground (suc fuel) p =
      let p' = record p {
        queue = recover_stale_if_enabled s.recover_stale_after_seconds s.now p.queue;
      } in
      let batch = process_batch (round_count p') p' in
      let again = run_foreground fuel batch.0 in
      if round_count p' == 0 then (p', finished []) else after_batch again batch
