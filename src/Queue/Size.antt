-- ===== src/Queue/Size.antt =====
-- How the operations of scripts/factory_queue.py change the number of unfinished files.
use ao_operator.Base.{
  ℕ, ◌+◌, ◌≤◌, ◌≡◌, ◌≢◌, refl, ap, ◌∙◌, Bool, true, none, some, [], ◌∷◌, ◌++◌, count, filter, arith,
  Option-cases, inl, inr,
}
use ao_operator.Text.{Text, teq_refl}
use ao_operator.Queue.Names.{claim_token_sep, slug_from_task, task_filename}
use ao_operator.Queue.Entries.{count-put_entry-le, count-remove_entry, name-find_entry}
use ao_operator.Queue.Defs.{
  remove_entry, Entry, Dir, Queue, QueueTask, Place, ok, find_entry, put_entry, claim_entry,
  claim_from, claim_one, move_from_inflight, mark_done, mark_failed, recover_entry, recover_from,
  recover_stale_inflight, sort_entries, pending_tasks,
}
use ao_operator.Queue.Recovery.{recover_cases}

abbrev every : Entry → Bool
every e = true

-- The files in pending and in-flight.
abbrev pub unfinished : Queue → ℕ
unfinished q = count every q.pending + count every q.in_flight

unfinished-claim_entry :
    (token source : Text) (q q' : Queue) (task : QueueTask)
    → claim_entry token source q ≡ some (q', task)
    → unfinished q' ≤ unfinished q
unfolding claim_entry
unfinished-claim_entry token source q q' task h =
    elim (Option-cases (find_entry source q.pending)) [
      | inl gone ↦ absurd (ground arith)
      | inr (e, found) ↦
          let e' = record e { name = token ++ (claim_token_sep ++ source) } in
          ground (
            arith,
            count-remove_entry every source q.pending e found,
            count-put_entry-le every e' q.in_flight,
          )
    ]

unfinished-claim_from :
    (token : ℕ → Text) (i : ℕ) (sources : Dir) (q : Queue)
    → unfinished (claim_from token i sources q).0 ≤ unfinished q
unfolding claim_from
unfinished-claim_from token i [] q = omega arith
unfinished-claim_from token i (e ∷ sources) q =
    elim (Option-cases (claim_entry (token i) e.name q)) [
      | inl gone ↦ rw (gone, claim_from) (unfinished-claim_from token (i + 1) sources q)
      | inr ((q', task), moved) ↦
          rw (moved, claim_from) (unfinished-claim_entry (token i) e.name q q' task moved)
    ]

pub unfinished-claim_one :
    (token : ℕ → Text) (q : Queue) → unfinished (claim_one token q).0 ≤ unfinished q
unfolding claim_one
unfinished-claim_one token q = unfinished-claim_from token 0 (pending_tasks q) q

-- A finished task leaves in-flight; the move touches no other directory but its target.
move-unfinished :
    (q : Queue) (task task' : QueueTask)
    → ((move_from_inflight task Place.done q).1 ≡ ok task'
        → unfinished (move_from_inflight task Place.done q).0 + 1 ≡ unfinished q)
      × ((move_from_inflight task Place.failed q).1 ≡ ok task'
          → unfinished (move_from_inflight task Place.failed q).0 + 1 ≡ unfinished q)
unfolding move_from_inflight
move-unfinished q task task' = elim (Option-cases (find_entry task.name q.in_flight)) [
  | inl gone ↦ (λ h. ground arith, λ h. ground arith)
  | inr (e, found) ↦ (
    λ h. ground (arith, count-remove_entry every task.name q.in_flight e found),
    λ h. ground (arith, count-remove_entry every task.name q.in_flight e found),
  )
]

pub unfinished-mark_done :
    (q : Queue) (task task' : QueueTask)
    → (mark_done task q).1 ≡ ok task'
    → unfinished (mark_done task q).0 + 1 ≡ unfinished q
unfolding mark_done
unfinished-mark_done q task task' = (move-unfinished q task task').0

pub unfinished-mark_failed :
    (q : Queue) (task task' : QueueTask)
    → (mark_failed task q).1 ≡ ok task'
    → unfinished (mark_failed task q).0 + 1 ≡ unfinished q
unfolding mark_failed
unfinished-mark_failed q task task' = (move-unfinished q task task').1

module _ (now stale_after : ℕ) where
  unfinished-recover_entry :
      (listed : Entry) (q : Queue)
      → unfinished (recover_entry now stale_after listed q).0 ≤ unfinished q
  unfinished-recover_entry listed q = elim (recover_cases now stale_after listed q) [
    | inl same ↦ rw same (omega arith)
    | inr (e, found, free, eq) ↦
        let found' : find_entry e.name q.in_flight ≡ some e =
          ap (λ n. find_entry n q.in_flight) (name-find_entry listed.name q.in_flight e found)
          ∙ found in
        let e' = record e { name = task_filename (slug_from_task e.name) } in
        rw eq (
          omega (
            arith,
            count-remove_entry every e.name q.in_flight e found',
            count-put_entry-le every e' q.pending,
          ))
  ]

  unfinished-recover_from :
      (listed : Dir) (q : Queue)
      → unfinished (recover_from now stale_after listed q).0 ≤ unfinished q
  unfolding recover_from
  unfinished-recover_from [] q = omega arith
  unfinished-recover_from (e ∷ listed) q = omega (
    arith,
    unfinished-recover_entry e q,
    unfinished-recover_from listed (recover_entry now stale_after e q).0,
  )

  pub unfinished-recover_stale_inflight :
      (q : Queue) → unfinished (recover_stale_inflight now stale_after q).0 ≤ unfinished q
  unfolding recover_stale_inflight
  unfinished-recover_stale_inflight q =
      unfinished-recover_from (sort_entries (filter (λ e. e.is_file) q.in_flight)) q

-- A task that was moved stands in its target under its name.
pub find-mark_done :
    (q : Queue) (task task' : QueueTask)
    → (mark_done task q).1 ≡ ok task'
    → find_entry task.name (mark_done task q).0.done ≢ none
unfolding mark_done move_from_inflight put_entry find_entry
find-mark_done q task task' h = elim (Option-cases (find_entry task.name q.in_flight)) [
  | inl gone ↦ absurd (ground arith)
  | inr (e, found) ↦ ground (arith, name-find_entry task.name q.in_flight e found, teq_refl e.name)
]

pub find-mark_failed :
    (q : Queue) (task task' : QueueTask)
    → (mark_failed task q).1 ≡ ok task'
    → find_entry task.name (mark_failed task q).0.failed ≢ none
unfolding mark_failed move_from_inflight put_entry find_entry
find-mark_failed q task task' h = elim (Option-cases (find_entry task.name q.in_flight)) [
  | inl gone ↦ absurd (ground arith)
  | inr (e, found) ↦ ground (arith, name-find_entry task.name q.in_flight e found, teq_refl e.name)
]

-- The move of a task takes its file out of in-flight.
pub in_flight-mark_done :
    (q : Queue) (task task' : QueueTask)
    → (mark_done task q).1 ≡ ok task'
    → (mark_done task q).0.in_flight ≡ remove_entry task.name q.in_flight
unfolding mark_done move_from_inflight
in_flight-mark_done q task task' h = elim (Option-cases (find_entry task.name q.in_flight)) [
  | inl gone ↦ absurd (ground arith)
  | inr (e, found) ↦ ground arith
]

pub in_flight-mark_failed :
    (q : Queue) (task task' : QueueTask)
    → (mark_failed task q).1 ≡ ok task'
    → (mark_failed task q).0.in_flight ≡ remove_entry task.name q.in_flight
unfolding mark_failed move_from_inflight
in_flight-mark_failed q task task' h = elim (Option-cases (find_entry task.name q.in_flight)) [
  | inl gone ↦ absurd (ground arith)
  | inr (e, found) ↦ ground arith
]

-- A claimed file whose name is free in the target is moved.
pub mark_done-ok :
    (q : Queue) (task : QueueTask)
    → find_entry task.name q.in_flight ≢ none
    → find_entry task.name q.done ≡ none
    → (mark_done task q).1 ≡ ok (record task { place = Place.done })
unfolding mark_done move_from_inflight
mark_done-ok q task there free = elim (Option-cases (find_entry task.name q.in_flight)) [
  | inl gone ↦ absurd (there gone)
  | inr (e, found) ↦ rw (mark_done, move_from_inflight, free, found) refl
]

pub mark_failed-ok :
    (q : Queue) (task : QueueTask)
    → find_entry task.name q.in_flight ≢ none
    → find_entry task.name q.failed ≡ none
    → (mark_failed task q).1 ≡ ok (record task { place = Place.failed })
unfolding mark_failed move_from_inflight
mark_failed-ok q task there free = elim (Option-cases (find_entry task.name q.in_flight)) [
  | inl gone ↦ absurd (there gone)
  | inr (e, found) ↦ rw (mark_failed, move_from_inflight, free, found) refl
]
