-- ===== src/Queue/Moves.antt =====
-- The moves of scripts/factory_queue.py keep the names in form, and neither lose nor double a task.
use ao_operator.Base.{
  ℕ, ◌+◌, ◌≡◌, refl, ap, sym, ◌∙◌, Bool, true, not, none, some, ◌++◌, count, arith, all,
  Option-cases, ◌==◌, if◌then◌else◌, inl, inr, ◌&&◌, ◌⊎◌,
}
use ao_operator.Text.{Text, teq, split_after}
use ao_operator.Queue.Names.{slugify, slug_from_task, claim_token_sep, brief_suffix}
use ao_operator.Queue.Slug.{slug_from_task-base, slug_from_task-cut}
use ao_operator.Queue.Entries.{
  All, All-find_entry, All-put_entry, All-remove_entry, count-put_entry, count-remove_entry,
  name-find_entry,
}
use ao_operator.Queue.Defs.{
  Entry, Dir, Queue, QueueTask, Place, pending, in_flight, done, failed, has_slug, find_entry,
  remove_entry, put_entry, claim_entry, dir_of, with_dir, move_from_inflight,
}

-- A slug that `slugify` leaves alone, and that holds no claim-token separator.
pub record IsSlug (s : Text) : Type 0 where
  pub fixed : slugify s ≡ s
  pub no_sep : split_after claim_token_sep s ≡ none

-- The name of a pending task, and of a claimed one.
pub record IsPlain (e : Entry) : Type 0 where
  pub slug : Text
  pub is_slug : IsSlug slug
  pub named : e.name ≡ slug ++ brief_suffix

abbrev pub is_token : Text → Bool
is_token token = all (λ c. not (c == b'_')) token

pub record IsClaimed (e : Entry) : Type 0 where
  pub token : Text
  pub clean : is_token token ≡ true
  pub slug : Text
  pub is_slug : IsSlug slug
  pub named : e.name ≡ token ++ (claim_token_sep ++ (slug ++ brief_suffix))

pub record IsWell (q : Queue) : Type 0 where
  pub pending : All IsPlain q.pending
  pub in_flight : All IsClaimed q.in_flight

-- How many files of a slug the queue holds, wherever they are.
abbrev pub total : Text → Queue → ℕ
total s q =
    count (has_slug s) q.pending
    + count (has_slug s) q.in_flight
    + count (has_slug s) q.done
    + count (has_slug s) q.failed

pub slug-IsPlain : (e : Entry) (h : IsPlain e) → slug_from_task e.name ≡ h.slug
slug-IsPlain e h = rw h.named (slug_from_task-base h.slug h.is_slug.no_sep)

pub slug-IsClaimed : (e : Entry) (h : IsClaimed e) → slug_from_task e.name ≡ h.slug
slug-IsClaimed e h = rw h.named (slug_from_task-cut h.token h.slug h.clean)

-- What the tokens of a claim have to be: free of underscores, as `<pid>-<hex>` is, and not used yet.
pub record IsFresh (token : ℕ → Text) (q : Queue) : Type 0 where
  pub clean : (i : ℕ) → is_token (token i) ≡ true
  pub unused :
      (i : ℕ) (name : Text) → find_entry (token i ++ (claim_token_sep ++ name)) q.in_flight ≡ none

module _ (token source : Text) (q : Queue) (clean : is_token token ≡ true) (w : IsWell q) where
  abbrev claimed : Entry → Entry
  claimed e = record e { name = token ++ (claim_token_sep ++ source) }

  claimed-IsClaimed : (e : Entry) → find_entry source q.pending ≡ some e → IsClaimed (claimed e)
  claimed-IsClaimed e found =
      let h = All-find_entry IsPlain source q.pending e w.pending found in
      record {
        token = token;
        clean = clean;
        slug = h.slug;
        is_slug = h.is_slug;
        named =
            ap (λ n. token ++ (claim_token_sep ++ n))
              (sym (name-find_entry source q.pending e found) ∙ h.named);
      }

  has_slug-claimed :
      (s : Text) (e : Entry)
      → find_entry source q.pending ≡ some e
      → has_slug s (claimed e) ≡ has_slug s e
  unfolding claimed-IsClaimed
  has_slug-claimed s e found =
      let h = All-find_entry IsPlain source q.pending e w.pending found in
      ap (λ n. e.is_file && teq n s)
        (slug-IsClaimed (claimed e) (claimed-IsClaimed e found) ∙ sym (slug-IsPlain e h))

  claim_entry_keeps :
      (q' : Queue) (task : QueueTask)
      → claim_entry token source q ≡ some (q', task)
      → (e : Entry) × (find_entry source q.pending ≡ some e)
        × (q' ≡ record q {
          pending = remove_entry source q.pending;
          in_flight = put_entry (claimed e) q.in_flight;
        })
  unfolding claim_entry
  claim_entry_keeps q' task h = elim (Option-cases (find_entry source q.pending)) [
    | inl gone ↦ ground arith
    | inr (e, found) ↦ (e, found, ground arith)
  ]

  pub claim_entry-IsWell :
      (q' : Queue) (task : QueueTask) → claim_entry token source q ≡ some (q', task) → IsWell q'
  claim_entry-IsWell q' task h =
      let (e, found, eq) = claim_entry_keeps q' task h in
      rw eq (record {
        pending = All-remove_entry IsPlain source q.pending w.pending;
        in_flight =
            All-put_entry IsClaimed (claimed e) q.in_flight (claimed-IsClaimed e found) w.in_flight;
      })

  pub total-claim_entry :
      (q' : Queue) (task : QueueTask) (s : Text)
      → find_entry (token ++ (claim_token_sep ++ source)) q.in_flight ≡ none
      → claim_entry token source q ≡ some (q', task)
      → total s q' ≡ total s q
  total-claim_entry q' task s unused h =
      let (e, found, eq) = claim_entry_keeps q' task h in
      rw eq (
        omega (
          arith,
          count-remove_entry (has_slug s) source q.pending e found,
          count-put_entry (has_slug s) (claimed e) q.in_flight unused,
          ap (λ b. if b then (let n : ℕ = 1 in n) else 0) (has_slug-claimed s e found),
        ))

-- A move from in-flight changes nothing, or takes the one file to a free name of the target.
move_cases :
    (q : Queue) (task : QueueTask) (target : Place)
    → (move_from_inflight task target q).0 ≡ q
      ⊎ (e : Entry) × (find_entry task.name (dir_of target q) ≡ none)
        × (find_entry task.name q.in_flight ≡ some e)
        × ((move_from_inflight task target q).0
            ≡ with_dir target
                (put_entry e (dir_of target q))
                (record q { in_flight = remove_entry task.name q.in_flight }))
unfolding move_from_inflight
move_cases q task target = elim (Option-cases (find_entry task.name (dir_of target q))) [
  | inr (e, taken) ↦ inl (ground arith)
  | inl free ↦ elim (Option-cases (find_entry task.name q.in_flight)) [
    | inl gone ↦ inl (ground arith)
    | inr (e, found) ↦ inr (e, free, found, ground arith)
  ]
]

-- The two directories that `mark_done` and `mark_failed` move to.
abbrev pub IsFinal : Place → Type 0
IsFinal done = Unit
IsFinal failed = Unit
IsFinal _ = ⊥

module _ (q : Queue) (task : QueueTask) where
  put_counts :
      (d : Dir) (s : Text) (e : Entry)
      → find_entry task.name d ≡ none
      → find_entry task.name q.in_flight ≡ some e
      → count (has_slug s) (put_entry e d) + count (has_slug s) (remove_entry task.name q.in_flight)
        ≡ count (has_slug s) d + count (has_slug s) q.in_flight
  put_counts d s e free found =
      let n = name-find_entry task.name q.in_flight e found in
      omega (
        arith,
        count-put_entry (has_slug s) e d (rw n free),
        count-remove_entry (has_slug s) task.name q.in_flight e found,
      )

  pub total-move_from_inflight :
      (target : Place) (s : Text)
      → IsFinal target
      → total s (move_from_inflight task target q).0 ≡ total s q
  total-move_from_inflight done s f = elim (move_cases q task done) [
    | inl same ↦ rw same refl
    | inr (e, free, found, eq) ↦ rw eq (omega (arith, put_counts q.done s e free found))
  ]
  total-move_from_inflight failed s f = elim (move_cases q task failed) [
    | inl same ↦ rw same refl
    | inr (e, free, found, eq) ↦ rw eq (omega (arith, put_counts q.failed s e free found))
  ]
  total-move_from_inflight pending s f = absurd f
  total-move_from_inflight in_flight s f = absurd f

  pub move_from_inflight-IsWell :
      (target : Place) → IsFinal target → IsWell q → IsWell (move_from_inflight task target q).0
  move_from_inflight-IsWell done f w = elim (move_cases q task done) [
    | inl same ↦ rw same w
    | inr (e, free, found, eq) ↦ rw eq (record {
      pending = w.pending;
      in_flight = All-remove_entry IsClaimed task.name q.in_flight w.in_flight;
    })
  ]
  move_from_inflight-IsWell failed f w = elim (move_cases q task failed) [
    | inl same ↦ rw same w
    | inr (e, free, found, eq) ↦ rw eq (record {
      pending = w.pending;
      in_flight = All-remove_entry IsClaimed task.name q.in_flight w.in_flight;
    })
  ]
  move_from_inflight-IsWell pending f w = absurd f
  move_from_inflight-IsWell in_flight f w = absurd f
