-- ===== src/Pool/Outcome.antt =====
-- What one worker of scripts/worker_pool.py does with the task that it claimed.
use ao_operator.Base.{
  ◌≡◌, ◌≢◌, refl, sym, ap, ◌∙◌, Bool, true, false, not, Option, none, some, List, arith, Bool-cases,
  inl, inr, ◌||◌, ◌&&◌, is_some, if◌then◌else◌,
}
use mathlib.Core.Path.{subst}
use ao_operator.Text.{Text}
use ao_operator.Queue.{
  Queue, QueueTask, Outcome, remove_entry, mark_done, mark_failed, find_entry, find-mark_done,
  find-mark_failed, in_flight-mark_done, in_flight-mark_failed, mark_done-ok, mark_failed-ok,
}
use ao_operator.Pool.Worker.{
  Host, Settings, Pool, WorkerResult, returns, is_zero, promoted, run_task, execute, settle,
  finish_with, ℤ, pos, negsuc, status_of, report_of, logged,
}

-- The copy of the artifacts was not asked for, or it did not fail.
abbrev pub copied : Settings → Host → Text → Bool
copied s host slug = not s.promote_artifacts || is_some (host.promote_task_artifacts slug)

finish_with-inv :
    (p p' : Pool) (moved : Queue × Outcome QueueTask) (r r' : WorkerResult)
    → finish_with p moved r ≡ (p', returns r')
    → (task : QueueTask) × (moved.1 ≡ Outcome.ok task) × (p'.queue ≡ moved.0) × (r ≡ r')
finish_with-inv p p' (q, Outcome.ok task) r r' h = (task, refl, ground arith, ground arith)
finish_with-inv p p' (q, Outcome.raise e) r r' h = absurd (ground arith)

settle-found :
    (task : QueueTask) (code : ℤ) (r r' : WorkerResult) (p p' : Pool)
    → settle task code r p ≡ (p', returns r')
    → (r ≡ r')
      × (find_entry task.name (if is_zero code then p'.queue.done else p'.queue.failed) ≢ none)
      × (p'.queue.in_flight ≡ remove_entry task.name p.queue.in_flight)
unfolding settle
settle-found task code r r' p p' h = elim (Bool-cases (is_zero code)) [
  | inl ok ↦
      let (t, moved, eq, same) =
        finish_with-inv p p' (mark_done task p.queue) r r' (rw (ok, settle) at h) in
      (
        same,
        rw (ok, eq) (find-mark_done p.queue task t moved),
        rw eq (in_flight-mark_done p.queue task t moved),
      )
  | inr bad ↦
      let (t, moved, eq, same) =
        finish_with-inv p p' (mark_failed task p.queue) r r' (rw (bad, settle) at h) in
      (
        same,
        rw (bad, eq) (find-mark_failed p.queue task t moved),
        rw eq (in_flight-mark_failed p.queue task t moved),
      )
]

promoted-zero :
    (on : Bool) (files : Option (List Text)) (code : ℤ)
    → is_zero (promoted on files code).0 ≡ (is_zero code && (not on || is_some files))
promoted-zero true none (pos n) = ground arith
promoted-zero true none (negsuc n) = ground arith
promoted-zero true (some l) code = ground arith
promoted-zero false files code = ground arith

-- A worker that returns has its workspace and puts the task's file in done or in failed; it is in
-- done, with status 0, exactly if the runner had status 0 and no copy that was asked for failed. The
-- task is no longer claimed.
pub run_task_lem :
    (host : Host) (s : Settings) (task : QueueTask) (p p' : Pool) (r : WorkerResult)
    → run_task host s task p ≡ (p', returns r)
    → (host.prepare_task_workspace task.slug ≡ true)
      × (r.task ≡ some task)
      × (is_zero r.returncode
          ≡ (is_zero (host.runner task.slug).returncode && copied s host task.slug))
      × (find_entry task.name (if is_zero r.returncode then p'.queue.done else p'.queue.failed)
          ≢ none)
      × (p'.queue.in_flight ≡ remove_entry task.name p.queue.in_flight)
unfolding run_task
run_task_lem host s task p p' r h = elim (Bool-cases (host.prepare_task_workspace task.slug)) [
  | inr broken ↦ let k = rw (broken, run_task) at h in absurd (ground arith)
  | inl ready ↦
      let result = host.runner task.slug in
      let code = (status_of host s task result).0 in
      let k = rw (ready, run_task) at h in
      let (same, found, gone) =
        settle-found task code (report_of host s task result) r (logged host s task result p) p'
          (unfold execute in k) in
      (
        ready,
        ap (λ (x : WorkerResult). x.task) (sym same),
        ap (λ (x : WorkerResult). is_zero x.returncode) (sym same)
            ∙ promoted-zero s.promote_artifacts (host.promote_task_artifacts task.slug)
                result.returncode,
        subst
            (λ (x : WorkerResult).
              find_entry task.name (if is_zero x.returncode then p'.queue.done else p'.queue.failed)
              ≢ none)
            same found,
        gone,
      )
]

finish_with-ok :
    (p : Pool) (moved : Queue × Outcome QueueTask) (task : QueueTask) (r : WorkerResult)
    → moved.1 ≡ Outcome.ok task
    → (finish_with p moved r).1 ≡ returns r
finish_with-ok p (q, Outcome.ok t) task r h = refl
finish_with-ok p (q, Outcome.raise e) task r h = absurd (ground arith)

settle_returns :
    (task : QueueTask) (code : ℤ) (r : WorkerResult) (p : Pool)
    → find_entry task.name p.queue.in_flight ≢ none
    → find_entry task.name p.queue.done ≡ none
    → find_entry task.name p.queue.failed ≡ none
    → (settle task code r p).1 ≡ returns r
settle_returns task code r p there d f =
    unfold settle in
    elim (Bool-cases (is_zero code)) [
      | inl ok ↦
          rw ok (finish_with-ok p (mark_done task p.queue) _ r (mark_done-ok p.queue task there d))
      | inr bad ↦
          rw bad
            (finish_with-ok p (mark_failed task p.queue) _ r (mark_failed-ok p.queue task there f))
    ]

run_task-report :
    (host : Host) (s : Settings) (task : QueueTask) (p : Pool)
    → host.prepare_task_workspace task.slug ≡ true
    → find_entry task.name p.queue.in_flight ≢ none
    → find_entry task.name p.queue.done ≡ none
    → find_entry task.name p.queue.failed ≡ none
    → (run_task host s task p).1 ≡ returns (report_of host s task (host.runner task.slug))
unfolding run_task execute
run_task-report host s task p ready there d f =
    let result = host.runner task.slug in
    rw ready (
      settle_returns task (status_of host s task result).0 (report_of host s task result)
        (logged host s task result p) there d f)

-- With a runner that returns, the worker of a claimed task whose workspace stands, and whose name is
-- neither in done nor in failed, does not raise: it reports the task, with status 0 exactly if the
-- runner had status 0 and no copy that was asked for failed, and the task's file leaves in-flight for
-- done with status 0, and for failed with any other.
pub run_task_returns :
    (host : Host) (s : Settings) (task : QueueTask) (p : Pool)
    → host.prepare_task_workspace task.slug ≡ true
    → find_entry task.name p.queue.in_flight ≢ none
    → find_entry task.name p.queue.done ≡ none
    → find_entry task.name p.queue.failed ≡ none
    → (r : WorkerResult) × (p' : Pool) × (run_task host s task p ≡ (p', returns r))
      × (r.task ≡ some task)
      × (is_zero r.returncode
          ≡ (is_zero (host.runner task.slug).returncode && copied s host task.slug))
      × (find_entry task.name (if is_zero r.returncode then p'.queue.done else p'.queue.failed)
          ≢ none)
      × (p'.queue.in_flight ≡ remove_entry task.name p.queue.in_flight)
run_task_returns host s task p ready there d f =
    let result = host.runner task.slug in
    let r = report_of host s task result in
    let p' = (run_task host s task p).0 in
    let ran : run_task host s task p ≡ (p', returns r) =
      ap (λ o. (p', o)) (run_task-report host s task p ready there d f) in
    let (ready', reported, status, found, gone) = run_task_lem host s task p p' r ran in
    (r, p', ran, reported, status, found, gone)
