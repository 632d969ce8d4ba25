-- ===== src/Queue/Tests.antt =====
-- The queue on small inputs.
use ao_operator.Base.{ℕ, ◌≤◌, ◌≡◌, ◌≢◌, refl, true, none, some, [], ◌∷◌, ◌++◌, arith}
use ao_operator.Text.{Text, codes, split_after, teq}
use ao_operator.Queue.Defs.{
  Entry, Queue, QueueTask, Place, raise, file_not_found, empty_queue, enqueue, claim_one,
  claim_entry, mark_done, recover_entry, recover_stale_inflight,
}
use ao_operator.Queue.Names.{slugify, slug_from_task, task_filename, claim_token_sep}
use ao_operator.Base.{◌⊎◌}
use ao_operator.Queue.Defs.{find_entry, pending_tasks, remove_entry}
use ao_operator.Queue.Slug.{slug_from_task-claimed, slug_from_task-truncates}
use ao_operator.Queue.Moves.{IsWell, IsPlain, IsFresh, total}
use ao_operator.Queue.Claim.{Takes, claim_one_keeps, claim_one-Takes}
use ao_operator.Queue.Recovery.{recover_stale_inflight_keeps}
use ao_operator.Queue.Stale.{claimed, claim_name, claim-recover_steals}
use ao_operator.Queue.Unique.{Step, Reach, Reach-total-le_one}

abbrev token : ℕ → Text
token i = codes "41-c0ffee"

slug-brief : slugify (codes " My Brief! v2 ") ≡ codes "my-brief-v2"
unfolding slugify
slug-brief = refl

slug-dunder : slug_from_task (task_filename (codes "a__b")) ≡ codes "b"
unfolding slug_from_task task_filename
slug-dunder = refl

abbrev queued : Queue
queued = (enqueue (codes "7") 5 (some (codes "text")) (codes "Demo") empty_queue).0

queued_pending :
    queued.pending
    ≡ record { name = codes "demo.brief.md"; is_file = true; mtime = 5; content = codes "text" }
      ∷ []
unfolding enqueue task_filename slug_from_task
queued_pending = refl

abbrev demo : Entry
demo = record { name = codes "demo.brief.md"; is_file = true; mtime = 5; content = codes "text" }

abbrev one_pending : Queue
one_pending = record { pending = demo ∷ []; in_flight = []; done = []; failed = [] }

demo-IsPlain : IsPlain demo
demo-IsPlain = record {
  slug = codes "demo";
  is_slug = record { fixed = unfold slugify in refl; no_sep = unfold split_after in refl };
  named = refl;
}

one_pending-IsWell : IsWell one_pending
one_pending-IsWell = record { pending = (demo-IsPlain, tt); in_flight = tt }

token-IsFresh : (q : Queue) → q.in_flight ≡ [] → IsFresh token q
token-IsFresh q e = record { clean = λ i. refl; unused = λ i n. rw e (unfold find_entry in refl) }

slug_from_task-claimed_example :
    slug_from_task (codes "41-c0ffee" ++ (claim_token_sep ++ task_filename (codes "a__b")))
    ≡ slugify (codes "a__b")
slug_from_task-claimed_example = slug_from_task-claimed (codes "41-c0ffee") (codes "a__b") refl

slug_from_task-truncates_example :
    (slug_from_task (task_filename (codes "a__b")) ≡ codes "b")
    × (slug_from_task (codes "41-c0ffee" ++ (claim_token_sep ++ task_filename (codes "a__b")))
        ≡ slugify (codes "a__b"))
    × (slugify (codes "a__b") ≢ codes "b")
slug_from_task-truncates_example =
    slug_from_task-truncates (codes "a__b") (codes "a") (codes "b") (codes "41-c0ffee")
      (unfold slugify in refl) refl refl

claim_one_keeps_example :
    IsWell (claim_one token one_pending).0
    × (total (codes "demo") (claim_one token one_pending).0 ≡ total (codes "demo") one_pending)
claim_one_keeps_example =
    claim_one_keeps token one_pending one_pending-IsWell (token-IsFresh one_pending refl)
      (codes "demo")

claim_one-Takes_example :
    ((pending_tasks one_pending ≡ []) × (claim_one token one_pending ≡ (one_pending, none)))
    ⊎ Takes (token 0) one_pending (claim_one token one_pending)
claim_one-Takes_example = claim_one-Takes token one_pending

abbrev stale_queue : Queue
stale_queue = record {
  pending = [];
  in_flight = claimed (token 0) (codes "demo.brief.md") demo ∷ [];
  done = [];
  failed = [];
}

stale_queue-IsWell : IsWell stale_queue
unfolding demo-IsPlain
stale_queue-IsWell = record {
  pending = tt;
  in_flight = (
    record {
      token = token 0;
      clean = refl;
      slug = codes "demo";
      is_slug = demo-IsPlain.is_slug;
      named = refl;
    },
    tt,
  );
}

recovered_now : (recover_stale_inflight 1805 1800 stale_queue).0.pending ≡ demo ∷ []
unfolding recover_stale_inflight slug_from_task task_filename
recovered_now = refl

recover_stale_inflight_keeps_example :
    IsWell (recover_stale_inflight 1805 1800 stale_queue).0
    × (total (codes "demo") (recover_stale_inflight 1805 1800 stale_queue).0
        ≡ total (codes "demo") stale_queue)
recover_stale_inflight_keeps_example =
    recover_stale_inflight_keeps 1805 1800 stale_queue (codes "demo") stale_queue-IsWell

abbrev demo_task : QueueTask
demo_task = record {
  place = Place.in_flight;
  name = claim_name (token 0) (codes "demo.brief.md");
  slug = codes "demo";
}

claim-recover_steals_example :
    (find_entry
        (codes "demo.brief.md")
        (recover_entry 1805 1800
          (claimed (token 0) (codes "demo.brief.md") demo)
          stale_queue).0.pending
      ≢ none)
    × ((mark_done demo_task
          (recover_entry 1805 1800
            (claimed (token 0) (codes "demo.brief.md") demo)
            stale_queue).0).1
        ≡ raise file_not_found)
unfolding teq
claim-recover_steals_example =
    claim-recover_steals (token 0) (codes "demo.brief.md") 1805 1800 one_pending demo stale_queue
      demo_task refl demo-IsPlain (unfold find_entry in refl)
      (unfold find_entry remove_entry in refl) (unfold find_entry in refl)
      (unfold find_entry in refl) (omega arith) (unfold claim_entry slug_from_task in refl)

queued_claimed : Reach empty_queue (claim_one token queued).0
unfolding teq task_filename
queued_claimed =
    Reach.next
      (Reach.next Reach.here (
        Step.enqueued (codes "7") 5 (some (codes "text")) (codes "Demo")
          (unfold split_after slugify in refl)))
      (Step.claimed token (token-IsFresh queued (unfold enqueue in refl)))

Reach-total-le_one_example : total (codes "demo") (claim_one token queued).0 ≤ 1
Reach-total-le_one_example =
    Reach-total-le_one (claim_one token queued).0 queued_claimed (codes "demo")
