-- ===== src/Queue/Defs.antt =====
-- scripts/factory_queue.py: the directories of the queue, and the operations on task files.
-- A directory is the list of its entries in the order in which `iterdir` gives them. Times are
-- counted in ticks of the clock, and `now` and the claim tokens are arguments.
use ao_operator.Base.{
  ℕ, ◌+◌, Bool, true, not, ◌&&◌, ◌||◌, Option, none, some, List, [], ◌∷◌, ◌++◌, ltb, if◌then◌else◌,
  filter, length, is_some,
}
use ao_operator.Text.{text_le, Text, teq, codes, starts_with}
use ao_operator.Queue.Names.{task_filename, slug_from_task, claim_token_sep}

pub record Entry : Type 0 where
  pub name : Text
  pub is_file : Bool
  pub mtime : ℕ
  pub content : Text

abbrev pub Dir : Type 0
Dir = List Entry

pub record Queue : Type 0 where
  pub pending : Dir
  pub in_flight : Dir
  pub done : Dir
  pub failed : Dir

-- `QueueTask`: the directory and name of the path, and the slug.
pub data Place : Type 0 where
  pending in_flight done failed : Place

pub record QueueTask : Type 0 where
  pub place : Place
  pub name : Text
  pub slug : Text

pub data QueueError : Type 0 where
  file_not_found file_exists : QueueError

pub data Outcome {ℓ} (A : Type ℓ) : Type ℓ where
  ok : A → Outcome A
  raise : QueueError → Outcome A

abbrev pub empty_queue : Queue
empty_queue = record { pending = []; in_flight = []; done = []; failed = [] }

unfoldable pub find_entry : Text → Dir → Option Entry
find_entry name [] = none
find_entry name (e ∷ d) = let rest = find_entry name d in if teq e.name name then some e else rest

unfoldable pub remove_entry : Text → Dir → Dir
remove_entry name [] = []
remove_entry name (e ∷ d) =
    let rest = remove_entry name d in if teq e.name name then d else e ∷ rest

-- What `os.replace` puts in the target directory: an entry of that name is overwritten.
unfoldable pub put_entry : Entry → Dir → Dir
unfolding remove_entry
put_entry e d = e ∷ remove_entry e.name d

-- `path.is_file() and not path.name.startswith(".")`
unfoldable pub is_visible : Entry → Bool
unfolding starts_with
is_visible e = e.is_file && not (starts_with (codes ".") e.name)

-- `sorted` on the paths of one directory goes by the code points of the names.
unfoldable pub insert_sorted : Entry → Dir → Dir
unfolding text_le
insert_sorted e [] = e ∷ []
insert_sorted e (f ∷ d) =
    let rest = insert_sorted e d in if text_le e.name f.name then e ∷ f ∷ d else f ∷ rest

unfoldable pub sort_entries : Dir → Dir
unfolding insert_sorted
sort_entries [] = []
sort_entries (e ∷ d) = insert_sorted e (sort_entries d)

unfoldable pub pending_tasks : Queue → Dir
unfolding sort_entries is_visible
pending_tasks q = sort_entries (filter is_visible q.pending)

unfoldable pub queue_depth : Queue → ℕ
unfolding pending_tasks
queue_depth q = length (pending_tasks q)

-- Entries of a directory that are files of a slug.
abbrev pub has_slug : Text → Entry → Bool
has_slug slug e = e.is_file && teq (slug_from_task e.name) slug

unfoldable pub all_task_locations : Queue → Text → Dir
unfolding find_entry
all_task_locations q filename =
    let slug = slug_from_task filename in
    let others =
      filter (has_slug slug) q.in_flight
      ++ (filter (has_slug slug) q.done ++ filter (has_slug slug) q.failed) in
    elim (find_entry filename q.pending) [ none ↦ others | some e ↦ e ∷ others ]

-- The hidden file of `enqueue`, `.<filename>.<pid>.tmp`.
unfoldable pub temp_name : Text → Text → Text
temp_name pid filename = codes "." ++ (filename ++ (codes "." ++ (pid ++ codes ".tmp")))

unfoldable pub write_temp : Text → ℕ → Text → Text → Queue → Queue
unfolding temp_name put_entry
write_temp pid now filename text q = record q {
  pending =
      put_entry
        (record { name = temp_name pid filename; is_file = true; mtime = now; content = text })
        q.pending;
}

-- `os.replace(temp, destination)` within pending.
unfoldable pub publish : Text → Text → Queue → Queue
unfolding find_entry put_entry
publish temp filename q = elim (find_entry temp q.pending) [
  | none ↦ q
  | some e ↦ record q {
    pending = put_entry (record e { name = filename }) (remove_entry temp q.pending);
  }
]

-- The brief's text is `none` where the path is no file.
unfoldable pub enqueue : Text → ℕ → Option Text → Text → Queue → Queue × Outcome QueueTask
unfolding all_task_locations write_temp publish
enqueue pid now none slug q = (q, raise file_not_found)
enqueue pid now (some text) slug q =
    let filename = task_filename slug in
    elim (all_task_locations q filename) [
      | [] ↦ (
        publish (temp_name pid filename) filename (write_temp pid now filename text q),
        ok (record { place = Place.pending; name = filename; slug = slug_from_task filename }),
      )
      | e ∷ rest ↦ (q, raise file_exists)
    ]

-- The move of one pending file to in-flight under its claim name. `none`: the file is gone.
unfoldable pub claim_entry : Text → Text → Queue → Option (Queue × QueueTask)
unfolding find_entry put_entry
claim_entry token source q = elim (find_entry source q.pending) [
  | none ↦ none
  | some e ↦
      let name = token ++ (claim_token_sep ++ source) in
      some (
        record q {
          pending = remove_entry source q.pending;
          in_flight = put_entry (record e { name = name }) q.in_flight;
        },
        record { place = Place.in_flight; name = name; slug = slug_from_task source },
      )
]

-- The loop of `claim_one` over the sources that were listed, each try with a new token.
unfoldable pub claim_from : (ℕ → Text) → ℕ → Dir → Queue → Queue × Option QueueTask
unfolding claim_entry
claim_from token i [] q = (q, none)
claim_from token i (e ∷ sources) q =
    let rest = claim_from token (i + 1) sources q in
    elim (claim_entry (token i) e.name q) [ none ↦ rest | some (q', task) ↦ (q', some task) ]

unfoldable pub claim_one : (ℕ → Text) → Queue → Queue × Option QueueTask
unfolding claim_from pending_tasks
claim_one token q = claim_from token 0 (pending_tasks q) q

abbrev pub dir_of : Place → Queue → Dir
dir_of pending q = q.pending
dir_of in_flight q = q.in_flight
dir_of done q = q.done
dir_of failed q = q.failed

abbrev pub with_dir : Place → Dir → Queue → Queue
with_dir pending d q = record q { pending = d }
with_dir in_flight d q = record q { in_flight = d }
with_dir done d q = record q { done = d }
with_dir failed d q = record q { failed = d }

-- `_move_from_inflight`. The path of the task is the one it was claimed under.
unfoldable pub move_from_inflight : QueueTask → Place → Queue → Queue × Outcome QueueTask
unfolding find_entry put_entry
move_from_inflight task target q = elim (find_entry task.name (dir_of target q)) [
  | some e ↦ (q, raise file_exists)
  | none ↦ elim (find_entry task.name q.in_flight) [
    | none ↦ (q, raise file_not_found)
    | some e ↦ (
      with_dir target (put_entry e (dir_of target q))
          (record q { in_flight = remove_entry task.name q.in_flight }),
      ok (record task { place = target }),
    )
  ]
]

unfoldable pub mark_done : QueueTask → Queue → Queue × Outcome QueueTask
unfolding move_from_inflight
mark_done task q = move_from_inflight task Place.done q

unfoldable pub mark_failed : QueueTask → Queue → Queue × Outcome QueueTask
unfolding move_from_inflight
mark_failed task q = move_from_inflight task Place.failed q

-- One round of `recover_stale_inflight`: the file `e`, as it was listed.
unfoldable pub recover_entry : ℕ → ℕ → Entry → Queue → Queue × Option QueueTask
unfolding find_entry put_entry
recover_entry now stale_after listed q = elim (find_entry listed.name q.in_flight) [
  | none ↦ (q, none)
  | some e ↦
      let slug = slug_from_task e.name in
      let name = task_filename slug in
      if ltb now (e.mtime + stale_after) || is_some (find_entry name q.pending)
      then (q, none)
      else (
        record q {
          in_flight = remove_entry e.name q.in_flight;
          pending = put_entry (record e { name = name }) q.pending;
        },
        some (record { place = Place.pending; name = name; slug = slug }),
      )
]

abbrev pub cons_some {ℓ} : {A : Type ℓ} → Option A → List A → List A
cons_some none l = l
cons_some (some a) l = a ∷ l

unfoldable pub recover_from : ℕ → ℕ → Dir → Queue → Queue × List QueueTask
unfolding recover_entry
recover_from now stale_after [] q = (q, [])
recover_from now stale_after (e ∷ listed) q =
    let (q', task) = recover_entry now stale_after e q in
    let (q'', tasks) = recover_from now stale_after listed q' in (q'', cons_some task tasks)

unfoldable pub recover_stale_inflight : ℕ → ℕ → Queue → Queue × List QueueTask
unfolding recover_from sort_entries
recover_stale_inflight now stale_after q =
    recover_from now stale_after (sort_entries (filter (λ e. e.is_file) q.in_flight)) q
