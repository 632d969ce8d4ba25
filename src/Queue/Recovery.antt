-- ===== src/Queue/Recovery.antt =====
-- `recover_stale_inflight` of scripts/factory_queue.py: tasks go back to pending under their slugs.
use ao_operator.Base.{
  ℕ, ◌+◌, ◌≤◌, ◌≡◌, refl, ap, sym, ◌∙◌, false, none, some, [], ◌∷◌, ◌++◌, filter, arith,
  Option-cases, Bool-cases, is_some, if◌then◌else◌, inl, inr, ltb, ◌||◌, ◌&&◌, ◌⊎◌,
}
use ao_operator.Text.{Text, teq, teq_refl}
use ao_operator.Queue.Names.{task_filename, slug_from_task, brief_suffix}
use ao_operator.Queue.Entries.{
  All-find_entry, All-put_entry, All-remove_entry, count-put_entry, count-remove_entry,
  name-find_entry,
}
use ao_operator.Queue.Defs.{
  Entry, Dir, Queue, has_slug, find_entry, remove_entry, put_entry, recover_entry, recover_from,
  recover_stale_inflight, sort_entries,
}
use ao_operator.Queue.Moves.{IsPlain, IsClaimed, IsWell, total, slug-IsPlain, slug-IsClaimed}

-- The file under its name in pending.
abbrev pub restored : Entry → Entry
restored e = record e { name = task_filename (slug_from_task e.name) }

-- The file `e` is not touched within `stale_after`, and its name in pending is free.
abbrev pub IsRecoverable : ℕ → ℕ → Entry → Queue → Type 0
IsRecoverable now stale_after e q =
    (ltb now (e.mtime + stale_after) ≡ false)
    × (find_entry (task_filename (slug_from_task e.name)) q.pending ≡ none)

module _ (now stale_after : ℕ) (listed : Entry) (q : Queue) where
  pub recover_cases :
      (recover_entry now stale_after listed q).0 ≡ q
      ⊎ (e : Entry) × (find_entry listed.name q.in_flight ≡ some e)
        × IsRecoverable now stale_after e q
        × ((recover_entry now stale_after listed q).0 ≡ record q {
          in_flight = remove_entry e.name q.in_flight;
          pending = put_entry (restored e) q.pending;
        })
  unfolding recover_entry
  recover_cases = elim (Option-cases (find_entry listed.name q.in_flight)) [
    | inl gone ↦ inl (ground arith)
    | inr (e, found) ↦
        elim (Bool-cases (
          ltb now (e.mtime + stale_after)
          || is_some (find_entry (task_filename (slug_from_task e.name)) q.pending))) [
            | inl kept ↦ inl (ground arith)
            | inr moved ↦ inr (e, found, (ground arith, ground arith), ground arith)
          ]
  ]

restored-IsPlain : (e : Entry) → IsClaimed e → IsPlain (restored e)
restored-IsPlain e h = record {
  slug = h.slug;
  is_slug = h.is_slug;
  named =
      ap task_filename (slug-IsClaimed e h)
      ∙ unfold task_filename in ap (λ s. s ++ brief_suffix) h.is_slug.fixed;
}

has_slug-restored : (s : Text) (e : Entry) → IsClaimed e → has_slug s (restored e) ≡ has_slug s e
unfolding restored-IsPlain
has_slug-restored s e h =
    ap (λ n. e.is_file && teq n s)
      (slug-IsPlain (restored e) (restored-IsPlain e h) ∙ sym (slug-IsClaimed e h))

module _ (now stale_after : ℕ) where
  pub total-recover_entry :
      (listed : Entry) (q : Queue) (s : Text)
      → IsWell q
      → total s (recover_entry now stale_after listed q).0 ≡ total s q
  total-recover_entry listed q s w = elim (recover_cases now stale_after listed q) [
    | inl same ↦ rw same refl
    | inr (e, found, (old, free), eq) ↦
        let found' : find_entry e.name q.in_flight ≡ some e =
          ap (λ n. find_entry n q.in_flight) (name-find_entry listed.name q.in_flight e found)
          ∙ found in
        let h = All-find_entry IsClaimed listed.name q.in_flight e w.in_flight found in
        rw eq (
          omega (
            arith,
            count-remove_entry (has_slug s) e.name q.in_flight e found',
            count-put_entry (has_slug s) (restored e) q.pending free,
            ap (λ b. if b then (let n : ℕ = 1 in n) else 0) (has_slug-restored s e h),
          ))
  ]

  pub recover_entry-IsWell :
      (listed : Entry) (q : Queue) → IsWell q → IsWell (recover_entry now stale_after listed q).0
  recover_entry-IsWell listed q w = elim (recover_cases now stale_after listed q) [
    | inl same ↦ rw same w
    | inr (e, found, free, eq) ↦ rw eq (record {
      pending =
          All-put_entry IsPlain (restored e) q.pending
            (restored-IsPlain e
              (All-find_entry IsClaimed listed.name q.in_flight e w.in_flight found))
            w.pending;
      in_flight = All-remove_entry IsClaimed e.name q.in_flight w.in_flight;
    })
  ]

  recover_from_keeps :
      (listed : Dir) (q : Queue) (s : Text)
      → IsWell q
      → IsWell (recover_from now stale_after listed q).0
        × (total s (recover_from now stale_after listed q).0 ≡ total s q)
  unfolding recover_from
  recover_from_keeps [] q s w = (w, refl)
  recover_from_keeps (e ∷ listed) q s w =
      let q' = (recover_entry now stale_after e q).0 in
      let (w', same) = recover_from_keeps listed q' s (recover_entry-IsWell e q w) in
      (w', same ∙ total-recover_entry e q s w)

  -- From a queue whose names are in form, recovery neither loses nor doubles a task of any slug, and
  -- keeps the names in form.
  pub recover_stale_inflight_keeps :
      (q : Queue) (s : Text)
      → IsWell q
      → IsWell (recover_stale_inflight now stale_after q).0
        × (total s (recover_stale_inflight now stale_after q).0 ≡ total s q)
  unfolding recover_stale_inflight
  recover_stale_inflight_keeps q s =
      recover_from_keeps (sort_entries (filter (λ e. e.is_file) q.in_flight)) q s

-- A task file that was last written at `e.mtime` is recovered as soon as `stale_after` has passed
-- since then, whatever else is in flight: the first file of its slug that is listed leaves in-flight.
pub recover_entry_due :
    (now stale_after : ℕ) (e : Entry) (q : Queue)
    → find_entry e.name q.in_flight ≡ some e
    → find_entry (task_filename (slug_from_task e.name)) q.pending ≡ none
    → e.mtime + stale_after ≤ now
    → find_entry
        (task_filename (slug_from_task e.name))
        (recover_entry now stale_after e q).0.pending
      ≡ some (restored e)
unfolding recover_entry find_entry put_entry
recover_entry_due now stale_after e q found free old =
    ground (arith, teq_refl (task_filename (slug_from_task e.name)))
