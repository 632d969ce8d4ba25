-- ===== src/Queue/Enqueue.antt =====
-- `enqueue` of scripts/factory_queue.py refuses a slug that is in the queue, wherever it is.
use ao_operator.Base.{
  ℕ, ◌≡◌, refl, ap, sym, ◌∙◌, Bool, true, none, List, [], ◌∷◌, ◌++◌, count, filter, arith,
  Option-cases, Bool-cases, inl, inr,
}
use ao_operator.Text.{Text, teq, teq→eq, teq_refl, teq_iff, split_after}
use ao_operator.Queue.Names.{claim_token_sep, slug_from_task, slugify, task_filename, brief_suffix}
use ao_operator.Queue.Slug.{slug_from_task-task_filename}
use ao_operator.Queue.Entries.{All}
use ao_operator.Queue.Defs.{
  Entry, Dir, Queue, has_slug, find_entry, remove_entry, put_entry, temp_name, write_temp, publish,
  all_task_locations,
}
use ao_operator.Queue.Moves.{IsWell, IsPlain, total, slug-IsPlain}

-- A list whose matches are none has no match.
count_of_filter-nil {ℓ} : {A : Type ℓ} (p : A → Bool) (l : List A) → filter p l ≡ [] → count p l ≡ 0
count_of_filter-nil p [] h = refl
count_of_filter-nil p (x ∷ l) h = ground (arith, count_of_filter-nil p l)

append-eq-nil {ℓ} : {A : Type ℓ} (xs ys : List A) → xs ++ ys ≡ [] → (xs ≡ []) × (ys ≡ [])
append-eq-nil [] ys h = (refl, h)
append-eq-nil (x ∷ xs) ys h = cc

-- A plain directory with no file of a name has no file of its slug.
count_absent :
    (slug : Text) (d : Dir)
    → All IsPlain d
    → find_entry (slug ++ brief_suffix) d ≡ none
    → count (has_slug slug) d ≡ 0
unfolding find_entry
count_absent slug [] h k = refl
count_absent slug (e ∷ d) (p, h) k = elim (Bool-cases (teq (slug_from_task e.name) slug)) [
  | inl hit ↦
      let here : e.name ≡ slug ++ brief_suffix =
        p.named
        ∙ ap (λ s. s ++ brief_suffix)
            (sym (slug-IsPlain e p) ∙ teq→eq (slug_from_task e.name) slug hit) in
      absurd (let t = (teq_iff e.name (slug ++ brief_suffix)).1 here in ground arith)
  | inr miss ↦ ground (arith, count_absent slug d h)
]

module _ (pid : Text) (now : ℕ) (text slug : Text) (q : Queue) where
  abbrev pub fresh_entry : Entry
  fresh_entry = record { name = task_filename slug; is_file = true; mtime = now; content = text }

  -- The temporary file is gone after the publish.
  pub published :
      (publish
        (temp_name pid (task_filename slug))
        (task_filename slug)
        (write_temp pid now (task_filename slug) text q)).pending
      ≡ put_entry fresh_entry (remove_entry (temp_name pid (task_filename slug)) q.pending)
  unfolding publish write_temp find_entry put_entry
  published = let e = teq_refl (temp_name pid (task_filename slug)) in ground arith

  pub locations-nil :
      IsWell q
      → split_after claim_token_sep (slugify slug) ≡ none
      → all_task_locations q (task_filename slug) ≡ []
      → total (slugify slug) q ≡ 0
  unfolding all_task_locations
  locations-nil w clear h =
      let s = slugify slug in
      let named : slug_from_task (task_filename slug) ≡ s =
        slug_from_task-task_filename slug clear in
      elim (Option-cases (find_entry (task_filename slug) q.pending)) [
        | inr (e, there) ↦ absurd (ground arith)
        | inl free ↦
            let rest : filter (has_slug s) q.in_flight
                  ++ (filter (has_slug s) q.done ++ filter (has_slug s) q.failed)
                ≡ [] =
              rw (← named) (rw (free, all_task_locations) at h) in
            let (i, df) =
              append-eq-nil (filter (has_slug s) q.in_flight)
                (filter (has_slug s) q.done ++ filter (has_slug s) q.failed) rest in
            let (d, f) =
              append-eq-nil (filter (has_slug s) q.done) (filter (has_slug s) q.failed) df in
            omega (
              arith,
              count_absent s q.pending w.pending (unfold task_filename in free),
              count_of_filter-nil (has_slug s) q.in_flight i,
              count_of_filter-nil (has_slug s) q.done d,
              count_of_filter-nil (has_slug s) q.failed f,
            )
      ]
