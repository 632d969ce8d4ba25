-- ===== src/Pool/Drain.antt =====
-- The foreground loop of scripts/worker_pool.py ends, and drains the queue.
use ao_operator.Base.{
  ℕ, zero, suc, ◌+◌, ◌<◌, ◌≡◌, ◌≢◌, refl, sym, true, false, Option, none, some, List, [], ◌∷◌,
  arith, Bool-cases, inl, inr, is_some, if◌then◌else◌, ◌==◌, length-eq-nil,
}
use mathlib.Core.Path.{subst}
use ao_operator.Text.{Text}
use ao_operator.Queue.{
  Queue, QueueTask, Outcome, claim_one, mark_done, mark_failed, queue_depth, pending_tasks,
  unfinished, claim_one-Takes,
}
use ao_operator.Pool.Limits.{
  desired_worker_count_bounds, provider_rate_limit_floor, recent_provider_rate_limits,
}
use ao_operator.Pool.Worker.{
  Host, Settings, Pool, WorkerResult, Exit, returns, raises, Ended, finished, raised, out_of_fuel,
  recover_stale_if_enabled, finish_with, is_zero, run_task, process_claimed, process_one,
  process_batch, join, round_count, after_batch, extend, run_foreground, execute, settle, status_of,
  report_of, logged,
}
use ao_operator.Pool.Leaves.{unfinished-recover, BatchLeaves, process_batch-Leaves}

-- A worker that reports no task leaves no task pending.
abbrev Empties : Pool × Exit WorkerResult → Type 0
Empties (p, raises) = Unit
Empties (p, returns r) = is_some r.task ≡ false → pending_tasks p.queue ≡ []

finish_with-Empties :
    (p : Pool) (moved : Queue × Outcome QueueTask) (r : WorkerResult)
    → is_some r.task ≡ true
    → Empties (finish_with p moved r)
finish_with-Empties p (q, Outcome.ok task) r h = λ k. absurd (ground arith)
finish_with-Empties p (q, Outcome.raise e) r h = tt

run_task-Empties :
    (host : Host) (s : Settings) (task : QueueTask) (p : Pool) → Empties (run_task host s task p)
unfolding run_task execute settle
run_task-Empties host s task p = elim (Bool-cases (host.prepare_task_workspace task.slug)) [
  | inl ready ↦
      let result = host.runner task.slug in
      let p' = logged host s task result p in
      let code = (status_of host s task result).0 in
      rw ready (
        finish_with-Empties p'
          (if is_zero code then mark_done task p'.queue else mark_failed task p'.queue)
          (report_of host s task result) refl)
  | inr broken ↦ rw broken tt
]

module _ (host : Host) (token : ℕ → Text) (s : Settings) where
  process_one-Empties : (p : Pool) → Empties (process_one host token s p)
  unfolding process_one
  process_one-Empties p =
      let q = recover_stale_if_enabled s.recover_stale_after_seconds s.now p.queue in
      let t = λ (i : ℕ). token (p.drawn + i) in
      elim (claim_one-Takes t q) [
        | inl (nil, same) ↦
            subst (λ c. Empties (process_claimed host token s p c)) (sym same) (λ k. nil)
        | inr takes ↦ taken p (claim_one t q) takes.claimed
      ]
    where
      taken :
          (p : Pool) (c : Queue × Option QueueTask) {task : QueueTask}
          → c.1 ≡ some task
          → Empties (process_claimed host token s p c)
      taken p (q, none) h = absurd (ground arith)
      taken p (q, some task) h =
          run_task-Empties host s task (record p { queue = q; drawn = p.drawn + 1 })

  -- A batch of at least one worker that reports no task leaves no task pending.
  abbrev BatchEmpties : Pool × Exit (List WorkerResult) → Type 0
  BatchEmpties (p, raises) = Unit
  BatchEmpties (p, returns rs) = rs ≡ [] → pending_tasks p.queue ≡ []

  join-Empties :
      (p'' : Pool) (r : WorkerResult) (rs : Exit (List WorkerResult))
      → BatchEmpties (p'', rs)
      → BatchEmpties (p'', join (returns r) rs)
  join-Empties p'' r raises h = tt
  join-Empties p'' r (returns rs) h = λ k. h (ground arith)

  one-Empties :
      (o : Pool × Exit WorkerResult) → Empties o → BatchEmpties (o.0, join o.1 (returns []))
  one-Empties (p, raises) h = tt
  one-Empties (p, returns r) h = λ k. h (ground arith)

  batch-Empties :
      (o : Pool × Exit WorkerResult) (rest : Pool × Exit (List WorkerResult))
      → BatchEmpties rest
      → BatchEmpties (rest.0, join o.1 rest.1)
  batch-Empties (p', raises) (p'', rs) h = tt
  batch-Empties (p', returns r) (p'', rs) h = join-Empties p'' r rs h

  process_batch-Empties : (n : ℕ) (p : Pool) → BatchEmpties (process_batch host token s (suc n) p)
  unfolding process_batch
  process_batch-Empties zero p = one-Empties (process_one host token s p) (process_one-Empties p)
  process_batch-Empties (suc n) p =
      batch-Empties (process_one host token s p)
        (process_batch host token s (suc n) (process_one host token s p).0)
        (process_batch-Empties n (process_one host token s p).0)

  process_batch-Empties_pos :
      (n : ℕ) (p : Pool) → (n == 0) ≡ false → BatchEmpties (process_batch host token s n p)
  process_batch-Empties_pos zero p h = absurd (ground arith)
  process_batch-Empties_pos (suc n) p h = process_batch-Empties n p

  -- What a draining loop promises: it ends, and if no worker raised, nothing is pending.
  abbrev pub Drains : Pool × Ended → Type 0
  Drains (p, finished rs) = pending_tasks p.queue ≡ []
  Drains (p, raised) = Unit
  Drains (p, out_of_fuel) = ⊥

  after_batch-Drains :
      (again : Pool × Ended) (batch : Pool × Exit (List WorkerResult))
      → s.drain ≡ true
      → BatchEmpties batch
      → (batch.1 ≢ returns [] → batch.1 ≢ raises → Drains again)
      → Drains (after_batch host token s again batch)
  after_batch-Drains again (p, raises) d e h = tt
  after_batch-Drains again (p, returns []) d e h = e refl
  after_batch-Drains again (p, returns (r ∷ rs)) d e h =
      rw d (extend-Drains again (h (λ k. cc) (λ k. cc)))
    where
      extend-Drains : (again : Pool × Ended) → Drains again → Drains (extend (r ∷ rs) again)
      extend-Drains (p, finished more) k = k
      extend-Drains (p, raised) k = k
      extend-Drains (p, out_of_fuel) k = k

  queue_depth-zero : (p : Pool) → queue_depth p.queue ≡ 0 → pending_tasks p.queue ≡ []
  unfolding queue_depth
  queue_depth-zero p h = length-eq-nil (pending_tasks p.queue) h

  round_count-zero :
      (p : Pool) → 0 < s.workers → round_count host token s p ≡ 0 → pending_tasks p.queue ≡ []
  unfolding round_count provider_rate_limit_floor
  round_count-zero p h e = queue_depth-zero p (
      ground (
        arith,
        (desired_worker_count_bounds p.queue s.workers
            (recent_provider_rate_limits 1800 s.now p.telemetry)).2,
      ))

  batch-less :
      (n : ℕ) (p : Pool)
      → (process_batch host token s n p).1 ≢ returns []
      → (process_batch host token s n p).1 ≢ raises
      → unfinished (process_batch host token s n p).0.queue < unfinished p.queue
  batch-less n p h k =
      go (process_batch host token s n p) (process_batch-Leaves host token s n p) h k
    where
      go :
          (o : Pool × Exit (List WorkerResult))
          → BatchLeaves host token s p.queue o
          → o.1 ≢ returns []
          → o.1 ≢ raises
          → unfinished o.0.queue < unfinished p.queue
      go (p', raises) l h k = absurd (k refl)
      go (p', returns []) l h k = absurd (h refl)
      go (p', returns (r ∷ rs)) l h k = omega arith

  -- With more fuel than there are unfinished files, the draining loop with a cap above 0 ends by
  -- itself, and unless a worker raised, no task is pending at its end, recovery included.
  pub run_foreground-Drains :
      (fuel : ℕ) (p : Pool)
      → s.drain ≡ true
      → 0 < s.workers
      → unfinished p.queue < fuel
      → Drains (run_foreground host token s fuel p)
  unfolding run_foreground
  run_foreground-Drains zero p d w h = elim h [ ]
  run_foreground-Drains (suc fuel) p d w h =
      let p' = record p {
        queue = recover_stale_if_enabled s.recover_stale_after_seconds s.now p.queue;
      } in
      elim (Bool-cases (round_count host token s p' == 0)) [
        | inl stop ↦ rw stop (round_count-zero p' w (ground arith))
        | inr go ↦
            let batch = process_batch host token s (round_count host token s p') p' in
            rw go (
              after_batch-Drains (run_foreground host token s fuel batch.0) batch d
                (process_batch-Empties_pos (round_count host token s p') p' go)
                λ some_left no_raise. run_foreground-Drains fuel batch.0 d w (
                  omega (
                    arith,
                    batch-less (round_count host token s p') p' some_left no_raise,
                    unfinished-recover s.recover_stale_after_seconds s.now p.queue,
                  )))
      ]
