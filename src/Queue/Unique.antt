-- ===== src/Queue/Unique.antt =====
-- The operations of scripts/factory_queue.py as steps, and what every sequence of them keeps.
use ao_operator.Base.{
  ℕ, ◌+◌, ◌≤◌, ◌≡◌, refl, ap, sym, ◌∙◌, Option, none, some, List, [], ◌∷◌, count, arith, Bool-cases,
  if◌then◌else◌, inl, inr, ◌⊎◌,
}
use ao_operator.Text.{Text, teq, teq→eq, split_after}
use ao_operator.Queue.Names.{claim_token_sep, slug_from_task, slugify, task_filename}
use ao_operator.Queue.Slug.{slugify_idem, slug_from_task-task_filename}
use ao_operator.Queue.Entries.{
  All-put_entry, All-remove_entry, count-put_entry-le, count-remove_entry-le,
}
use ao_operator.Queue.Defs.{
  Queue, QueueTask, empty_queue, has_slug, Place, remove_entry, temp_name, write_temp, publish,
  all_task_locations, enqueue, claim_one, mark_done, mark_failed, recover_stale_inflight,
}
use ao_operator.Queue.Moves.{
  IsWell, IsFresh, IsPlain, total, total-move_from_inflight, move_from_inflight-IsWell,
}
use ao_operator.Queue.Recovery.{recover_stale_inflight_keeps}
use ao_operator.Queue.Claim.{claim_one_keeps}
use ao_operator.Queue.Enqueue.{locations-nil, published, fresh_entry}

List-cases {ℓ} : {A : Type ℓ} (l : List A) → (l ≡ []) ⊎ (x : A) × (r : List A) × (l ≡ x ∷ r)
List-cases [] = inl refl
List-cases (x ∷ r) = inr (x, r, refl)

abbrev IsUnique : Queue → Type 0
IsUnique q = (s : Text) → total s q ≤ 1

module _ (pid : Text) (now : ℕ) (text slug : Text) (q : Queue) (w : IsWell q)
    (clear : split_after claim_token_sep (slugify slug) ≡ none) where
  abbrev put : Queue
  put =
      publish (temp_name pid (task_filename slug)) (task_filename slug)
        (write_temp pid now (task_filename slug) text q)

  put_rest : (put.in_flight ≡ q.in_flight) × (put.done ≡ q.done) × (put.failed ≡ q.failed)
  unfolding publish write_temp
  put_rest = (ground arith, ground arith, ground arith)

  put-IsWell : IsWell put
  put-IsWell = record {
    pending = rw (published pid now text slug q) (
        All-put_entry IsPlain (fresh_entry pid now text slug q)
          (remove_entry (temp_name pid (task_filename slug)) q.pending)
          (record {
            slug = slugify slug;
            is_slug = record { fixed = slugify_idem slug; no_sep = clear };
            named = unfold task_filename in refl;
          })
          (All-remove_entry IsPlain (temp_name pid (task_filename slug)) q.pending w.pending));
    in_flight = rw put_rest.0 w.in_flight;
  }

  total-put-le : (s : Text) → total s put ≤ (if teq (slugify slug) s then 1 else 0) + total s q
  total-put-le s =
      let p = has_slug s in
      let e = fresh_entry pid now text slug q in
      let temp = temp_name pid (task_filename slug) in
      let named : slug_from_task (task_filename slug) ≡ slugify slug =
        slug_from_task-task_filename slug clear in
      omega (
        arith,
        ap (count p) (published pid now text slug q),
        count-put_entry-le p e (remove_entry temp q.pending),
        count-remove_entry-le p temp q.pending,
        ap (count p) put_rest.0,
        ap (count p) put_rest.1,
        ap (count p) put_rest.2,
        ap (λ n. if teq n s then (let k : ℕ = 1 in k) else 0) named,
      )

  put-IsUnique : IsUnique q → all_task_locations q (task_filename slug) ≡ [] → IsUnique put
  put-IsUnique u h s = elim (Bool-cases (teq (slugify slug) s)) [
    | inl hit ↦
        let none_yet : total s q ≡ 0 =
          ap (λ n. total n q) (sym (teq→eq (slugify slug) s hit))
          ∙ locations-nil pid now text slug q w clear h in
        omega (arith, total-put-le s, none_yet, ap (λ b. if b then (let k : ℕ = 1 in k) else 0) hit)
    | inr miss ↦
        omega (arith, total-put-le s, u s, ap (λ b. if b then (let k : ℕ = 1 in k) else 0) miss)
  ]

-- An enqueue adds a file of a free slug, and leaves the queue alone if it raises.
enqueue_cases :
    (pid : Text) (now : ℕ) (brief : Option Text) (slug : Text) (q : Queue)
    → ((enqueue pid now brief slug q).0 ≡ q)
      ⊎ (text : Text) × (all_task_locations q (task_filename slug) ≡ [])
        × ((enqueue pid now brief slug q).0
            ≡ publish
                (temp_name pid (task_filename slug))
                (task_filename slug)
                (write_temp pid now (task_filename slug) text q))
unfolding enqueue
enqueue_cases pid now none slug q = inl refl
enqueue_cases pid now (some text) slug q =
    elim (List-cases (all_task_locations q (task_filename slug))) [
      | inl free ↦ inr (text, free, rw (free, enqueue) refl)
      | inr (e, r, taken) ↦ inl (rw (taken, enqueue) refl)
    ]

-- The operations on a queue, as the steps of any number of callers.
pub data Step (q : Queue) : Queue → Type 0 where
  enqueued :
      (pid : Text) (now : ℕ) (brief : Option Text) (slug : Text)
      → split_after claim_token_sep (slugify slug) ≡ none
      → Step q (enqueue pid now brief slug q).0
  claimed : (token : ℕ → Text) → IsFresh token q → Step q (claim_one token q).0
  finished : (task : QueueTask) → Step q (mark_done task q).0
  dropped : (task : QueueTask) → Step q (mark_failed task q).0
  recovered : (now stale_after : ℕ) → Step q (recover_stale_inflight now stale_after q).0

pub data Reach (q : Queue) : Queue → Type 0 where
  here : Reach q q
  next : {r s : Queue} → Reach q r → Step r s → Reach q s

pub record IsSound (q : Queue) : Type 0 where
  pub well : IsWell q
  pub unique : IsUnique q

Step-IsSound : {q r : Queue} → Step q r → IsSound q → IsSound r
Step-IsSound {q} (enqueued pid now brief slug clear) h = elim (enqueue_cases pid now brief slug q) [
  | inl same ↦ rw same h
  | inr (text, free, eq) ↦ rw eq (record {
    well = put-IsWell pid now text slug q h.well clear;
    unique = put-IsUnique pid now text slug q h.well clear h.unique free;
  })
]
Step-IsSound {q} (claimed token f) h = record {
  well = (claim_one_keeps token q h.well f []).0;
  unique = λ s. rw (claim_one_keeps token q h.well f s).1 (h.unique s);
}
Step-IsSound {q} (finished task) h =
    unfold mark_done in
    record {
      well = move_from_inflight-IsWell q task Place.done tt h.well;
      unique = λ s. rw (total-move_from_inflight q task Place.done s tt) (h.unique s);
    }
Step-IsSound {q} (dropped task) h =
    unfold mark_failed in
    record {
      well = move_from_inflight-IsWell q task Place.failed tt h.well;
      unique = λ s. rw (total-move_from_inflight q task Place.failed s tt) (h.unique s);
    }
Step-IsSound {q} (recovered now stale_after) h = record {
  well = (recover_stale_inflight_keeps now stale_after q [] h.well).0;
  unique = λ s. rw (recover_stale_inflight_keeps now stale_after q s h.well).1 (h.unique s);
}

Reach-IsSound : {q r : Queue} → IsSound q → Reach q r → IsSound r
Reach-IsSound h here = h
Reach-IsSound h (next r step) = Step-IsSound step (Reach-IsSound h r)

-- Whatever operations run on an empty queue, in any order, by any callers: if no slug that is
-- enqueued holds a double underscore, and claims draw unused tokens free of underscores, every slug
-- has at most one file in the whole queue.
pub Reach-total-le_one : (q : Queue) → Reach empty_queue q → (s : Text) → total s q ≤ 1
Reach-total-le_one q r =
    (Reach-IsSound
      (record { well = record { pending = tt; in_flight = tt }; unique = λ s. omega arith })
      r).unique
