-- ===== src/Queue/Stale.antt =====
-- The age that `recover_stale_inflight` of scripts/factory_queue.py reads is that of the file, and
-- the rename of `claim_one` keeps the file's time.
use ao_operator.Base.{ℕ, ◌+◌, ◌≤◌, ◌≡◌, ◌≢◌, ap, sym, ◌∙◌, true, none, some, ◌++◌, arith}
use ao_operator.Text.{Text, teq_refl}
use ao_operator.Queue.Names.{claim_token_sep, slug_from_task, task_filename, brief_suffix}
use ao_operator.Queue.Slug.{slug_from_task-cut}
use ao_operator.Queue.Entries.{remove_entry_absent, name-find_entry}
use ao_operator.Queue.Defs.{
  Entry, Queue, QueueTask, raise, file_not_found, find_entry, remove_entry, put_entry, claim_entry,
  recover_entry, mark_done,
}
use ao_operator.Queue.Moves.{IsPlain, slug-IsPlain, is_token}

abbrev pub claim_name : Text → Text → Text
claim_name token source = token ++ (claim_token_sep ++ source)

abbrev pub claimed : Text → Text → Entry → Entry
claimed token source e = record e { name = claim_name token source }

module _ (token source : Text) (now stale_after : ℕ) (q : Queue) (e : Entry) where
  steals :
      (q' : Queue) (task : QueueTask)
      → slug_from_task (claim_name token source) ≡ slug_from_task source
      → task_filename (slug_from_task source) ≡ source
      → find_entry source q.pending ≡ some e
      → find_entry source (remove_entry source q.pending) ≡ none
      → find_entry (claim_name token source) q.in_flight ≡ none
      → find_entry (claim_name token source) q.done ≡ none
      → e.mtime + stale_after ≤ now
      → claim_entry token source q ≡ some (q', task)
      → (find_entry source (recover_entry now stale_after (claimed token source e) q').0.pending
          ≢ none)
        × ((mark_done task (recover_entry now stale_after (claimed token source e) q').0).1
            ≡ raise file_not_found)
  unfolding claim_entry recover_entry mark_done find_entry remove_entry put_entry
  steals q' task same canon found once unused undone old h = (
    ground (
      arith,
      teq_refl (claim_name token source),
      teq_refl source,
      remove_entry_absent (claim_name token source) q.in_flight unused,
    ),
    ground (
      arith,
      teq_refl (claim_name token source),
      teq_refl source,
      remove_entry_absent (claim_name token source) q.in_flight unused,
    ),
  )

-- A pending file that has waited for the stale time is claimed: a recovery at the same moment puts
-- it back into pending, and the worker that claimed it cannot mark it done: the file is not found.
-- The names are in form, pending holds the name once, and the claim name is new.
pub claim-recover_steals :
    (token source : Text) (now stale_after : ℕ) (q : Queue) (e : Entry) (q' : Queue)
    (task : QueueTask)
    → is_token token ≡ true
    → IsPlain e
    → find_entry source q.pending ≡ some e
    → find_entry source (remove_entry source q.pending) ≡ none
    → find_entry (claim_name token source) q.in_flight ≡ none
    → find_entry (claim_name token source) q.done ≡ none
    → e.mtime + stale_after ≤ now
    → claim_entry token source q ≡ some (q', task)
    → (find_entry source (recover_entry now stale_after (claimed token source e) q').0.pending
        ≢ none)
      × ((mark_done task (recover_entry now stale_after (claimed token source e) q').0).1
          ≡ raise file_not_found)
claim-recover_steals token source now stale_after q e q' task clean plain found =
    let named : source ≡ plain.slug ++ brief_suffix =
      sym (name-find_entry source q.pending e found) ∙ plain.named in
    let slug : slug_from_task source ≡ plain.slug =
      ap slug_from_task (sym (name-find_entry source q.pending e found)) ∙ slug-IsPlain e plain in
    let cut : slug_from_task (claim_name token source) ≡ plain.slug =
      ap (λ n. slug_from_task (token ++ (claim_token_sep ++ n))) named
      ∙ slug_from_task-cut token plain.slug clean in
    let canon : task_filename (slug_from_task source) ≡ source =
      ap task_filename slug
      ∙ unfold task_filename in ap (λ s. s ++ brief_suffix) plain.is_slug.fixed ∙ sym named in
    steals token source now stale_after q e q' task (cut ∙ sym slug) canon found
