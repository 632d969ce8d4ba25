-- ===== src/Pool/Leaves.antt =====
-- What a worker and a batch leave unfinished: each leaves no more than it found.
use ao_operator.Base.{
  ℕ, zero, suc, ◌+◌, ◌≤◌, ◌≡◌, refl, Option, none, some, List, arith, Bool-cases, inl, inr, is_some,
  if◌then◌else◌, length,
}
use ao_operator.Text.{Text}
use ao_operator.Queue.{
  Queue, QueueTask, Outcome, claim_one, mark_done, mark_failed, unfinished, unfinished-claim_one,
  unfinished-mark_done, unfinished-mark_failed, unfinished-recover_stale_inflight,
}
use ao_operator.Pool.Worker.{
  Host, Settings, Pool, WorkerResult, Exit, returns, raises, recover_stale_if_enabled, finish_with,
  is_zero, run_task, process_claimed, process_one, process_batch, join, execute, settle, ℤ,
  status_of, report_of, logged,
}

pub unfinished-recover :
    (o : Option ℕ) (now : ℕ) (q : Queue)
    → unfinished (recover_stale_if_enabled o now q) ≤ unfinished q
unfolding recover_stale_if_enabled
unfinished-recover none now q = omega arith
unfinished-recover (some n) now q = ground (arith, unfinished-recover_stale_inflight now n q)

-- How many unfinished files a worker leaves: one less than before, if it had a task and returns.
abbrev Leaves : Queue → Pool × Exit WorkerResult → Type 0
Leaves q (p, raises) = Unit
Leaves q (p, returns r) = unfinished p.queue + (if is_some r.task then 1 else 0) ≤ unfinished q

finish_with-Leaves :
    (q : Queue) (p : Pool) (moved : Queue × Outcome QueueTask) (task : QueueTask) (r : WorkerResult)
    → r.task ≡ some task
    → ((task' : QueueTask) → moved.1 ≡ Outcome.ok task' → unfinished moved.0 + 1 ≡ unfinished q)
    → Leaves q (finish_with p moved r)
finish_with-Leaves q p (q', Outcome.ok task') task r h k = ground (arith, k task' refl)
finish_with-Leaves q p (q', Outcome.raise e) task r h k = tt

settle-Leaves :
    (task : QueueTask) (code : ℤ) (r : WorkerResult) (p : Pool)
    → r.task ≡ some task
    → Leaves p.queue (settle task code r p)
settle-Leaves task code r p h =
    unfold settle in
    elim (Bool-cases (is_zero code)) [
      | inl ok ↦ rw ok (
          finish_with-Leaves p.queue p (mark_done task p.queue) task r h
            (unfinished-mark_done p.queue task))
      | inr bad ↦ rw bad (
          finish_with-Leaves p.queue p (mark_failed task p.queue) task r h
            (unfinished-mark_failed p.queue task))
    ]

run_task-Leaves :
    (host : Host) (s : Settings) (task : QueueTask) (p : Pool)
    → Leaves p.queue (run_task host s task p)
unfolding run_task
run_task-Leaves host s task p = elim (Bool-cases (host.prepare_task_workspace task.slug)) [
  | inl ready ↦ rw ready (
      unfold execute in
      let result = host.runner task.slug in
      settle-Leaves task (status_of host s task result).0 (report_of host s task result)
        (logged host s task result p) refl)
  | inr broken ↦ rw broken tt
]

Leaves-le :
    (q q' : Queue) (o : Pool × Exit WorkerResult)
    → unfinished q' ≤ unfinished q
    → Leaves q' o
    → Leaves q o
Leaves-le q q' (p, raises) h k = tt
Leaves-le q q' (p, returns r) h k = omega arith

module _ (host : Host) (token : ℕ → Text) (s : Settings) where
  process_claimed-Leaves :
      (p : Pool) (c : Queue × Option QueueTask) → Leaves c.0 (process_claimed host token s p c)
  process_claimed-Leaves p (q, none) = omega arith
  process_claimed-Leaves p (q, some task) =
      run_task-Leaves host s task (record p { queue = q; drawn = p.drawn + 1 })

  process_one-Leaves : (p : Pool) → Leaves p.queue (process_one host token s p)
  unfolding process_one
  process_one-Leaves p =
      let q = recover_stale_if_enabled s.recover_stale_after_seconds s.now p.queue in
      let c = claim_one (λ i. token (p.drawn + i)) q in
      Leaves-le p.queue c.0 (process_claimed host token s p c)
        (omega (
          arith,
          unfinished-claim_one (λ i. token (p.drawn + i)) q,
          unfinished-recover s.recover_stale_after_seconds s.now p.queue,
        ))
        (process_claimed-Leaves p c)

  -- A batch that returns leaves fewer unfinished files, by as many as it has results.
  abbrev pub BatchLeaves : Queue → Pool × Exit (List WorkerResult) → Type 0
  BatchLeaves q (p, raises) = Unit
  BatchLeaves q (p, returns rs) = unfinished p.queue + length rs ≤ unfinished q

  join-Leaves :
      (q : Queue) (p' p'' : Pool) (r : Exit WorkerResult) (rs : Exit (List WorkerResult))
      → Leaves q (p', r)
      → BatchLeaves p'.queue (p'', rs)
      → BatchLeaves q (p'', join r rs)
  join-Leaves q p' p'' raises rs h k = tt
  join-Leaves q p' p'' (returns r) raises h k = tt
  join-Leaves q p' p'' (returns r) (returns rs) h k = ground arith

  pub process_batch-Leaves :
      (n : ℕ) (p : Pool) → BatchLeaves p.queue (process_batch host token s n p)
  unfolding process_batch
  process_batch-Leaves zero p = omega arith
  process_batch-Leaves (suc n) p =
      let (p', r) = process_one host token s p in
      let (p'', rs) = process_batch host token s n p' in
      join-Leaves p.queue p' p'' r rs (process_one-Leaves p) (process_batch-Leaves n p')
