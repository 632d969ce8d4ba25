-- ===== src/Pool/Advice.antt =====
-- What the suggestions of the report of scripts/worker_pool.py are worth.
use ao_operator.Base.{
  ℕ, suc, ◌<◌, ◌≤◌, ◌≡◌, refl, ap, sym, true, false, Option, List, [], ◌∷◌, ltb, filter, length,
  is_some, arith, inl, inr, length-eq-nil, ◌&&◌,
}
use ao_operator.Text.{Text}
use ao_operator.Queue.{
  Entry, Dir, Queue, claim_one, claim_one-Takes, is_visible, sort_entries, insert_sorted,
  pending_tasks, queue_depth,
}
use ao_operator.Pool.Limits.{Line, desired_worker_count_bounds, recent_provider_rate_limits}
use ao_operator.Pool.Report.{
  Counts, run_pool, idle, count_visible, counts_of, cap_of, suggested_queue_action, report_payload,
}

length-insert_sorted : (e : Entry) (d : Dir) → length (insert_sorted e d) ≡ suc (length d)
unfolding insert_sorted
length-insert_sorted e [] = refl
length-insert_sorted e (f ∷ d) = ground (arith, length-insert_sorted e d)

length-sort_entries : (d : Dir) → length (sort_entries d) ≡ length d
unfolding sort_entries
length-sort_entries [] = refl
length-sort_entries (e ∷ d) =
    omega (arith, length-insert_sorted e (sort_entries d), length-sort_entries d)

-- The count of pending tasks in the report is the depth of the queue.
pending-depth : (q : Queue) → (counts_of q).pending ≡ queue_depth q
unfolding counts_of queue_depth pending_tasks count_visible
pending-depth q = sym (length-sort_entries (filter is_visible q.pending))

action-run_pool :
    (c : Counts) (stale n : ℕ) → suggested_queue_action c stale n ≡ run_pool → (stale ≡ 0) × (0 < n)
unfolding suggested_queue_action
action-run_pool c stale n h = ground arith

action-idle :
    (c : Counts) (stale n : ℕ)
    → suggested_queue_action c stale n ≡ idle
    → (stale ≡ 0) × ((ltb 0 c.pending && ltb 0 n) ≡ false) × (c.failed ≡ 0)
unfolding suggested_queue_action
action-idle c stale n h = ground arith

claim-some :
    (token : ℕ → Text) (q : Queue) → 0 < queue_depth q → is_some (claim_one token q).1 ≡ true
unfolding queue_depth
claim-some token q h = elim (claim_one-Takes token q) [
  | inl (none_left, same) ↦ absurd (let e = ap length none_left in omega (arith, e))
  | inr taken ↦ rw taken.claimed refl
]

-- Where the report suggests to run the pool, no visible claim is stale, it suggests a worker at the
-- least and no more than there are pending tasks, and a claim finds a task.
pub report-run_pool :
    (max_workers : ℕ) (workers : Option ℕ) (stale_after window now : ℕ) (q : Queue)
    (lines : List Line) (token : ℕ → Text)
    → (report_payload max_workers workers stale_after window now q lines).suggested_action
      ≡ run_pool
    → ((report_payload max_workers workers stale_after window now q lines).stale_in_flight ≡ 0)
      × (0 < (report_payload max_workers workers stale_after window now q lines).suggested_workers)
      × ((report_payload max_workers workers stale_after window now q lines).suggested_workers
          ≤ queue_depth q)
      × (is_some (claim_one token q).1 ≡ true)
unfolding report_payload
report-run_pool max_workers workers stale_after window now q lines token h =
    let recent = recent_provider_rate_limits window now lines in
    let (fresh, some_worker) = action-run_pool (counts_of q) _ _ h in
    let bounded = (desired_worker_count_bounds q (cap_of max_workers workers) recent).0 in
    (fresh, some_worker, bounded, claim-some token q (omega (arith, some_worker, bounded)))

-- With a cap above 0, an idle report means that nothing is left to do: no task is pending, no visible
-- claim is stale, and no visible file has failed.
pub report-idle :
    (max_workers : ℕ) (workers : Option ℕ) (stale_after window now : ℕ) (q : Queue)
    (lines : List Line)
    → 0 < cap_of max_workers workers
    → (report_payload max_workers workers stale_after window now q lines).suggested_action ≡ idle
    → (pending_tasks q ≡ [])
      × ((report_payload max_workers workers stale_after window now q lines).stale_in_flight ≡ 0)
      × (count_visible q.failed ≡ 0)
unfolding report_payload
report-idle max_workers workers stale_after window now q lines some_cap h =
    let recent = recent_provider_rate_limits window now lines in
    let (fresh, no_run, none_failed) = action-idle (counts_of q) _ _ h in
    let bounds = desired_worker_count_bounds q (cap_of max_workers workers) recent in
    let depth : queue_depth q ≡ 0 = ground (arith, some_cap, no_run, pending-depth q, bounds.2) in
    (
      length-eq-nil (pending_tasks q) (unfold queue_depth in depth),
      fresh,
      unfold counts_of in none_failed,
    )
