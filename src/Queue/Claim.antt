-- ===== src/Queue/Claim.antt =====
-- `claim_one` of scripts/factory_queue.py: what a claim takes, and that it loses nothing.
use ao_operator.Base.{
  ℕ, ◌+◌, ◌≡◌, ◌≢◌, refl, sym, Bool, true, false, Option, none, some, [], ◌∷◌, ◌++◌, filter, arith,
  Option-cases, Bool-cases, is_some, inl, inr, ◌⊎◌,
}
use mathlib.Core.Path.{subst, subst₂}
use ao_operator.Text.{text_le, Text, teq_refl}
use ao_operator.Queue.Names.{claim_token_sep, slug_from_task}
use ao_operator.Queue.Entries.{All}
use ao_operator.Queue.Defs.{
  Entry, Dir, Queue, QueueTask, Place, find_entry, remove_entry, insert_sorted, sort_entries,
  is_visible, put_entry, pending_tasks, claim_entry, claim_from, claim_one,
}
use ao_operator.Queue.Moves.{IsWell, IsFresh, total, claim_entry-IsWell, total-claim_entry}

module _ (token : ℕ → Text) (q : Queue) (w : IsWell q) (f : IsFresh token q) where
  claim_from_keeps :
      (i : ℕ) (sources : Dir) (s : Text)
      → IsWell (claim_from token i sources q).0
        × (total s (claim_from token i sources q).0 ≡ total s q)
  unfolding claim_from
  claim_from_keeps i [] s = (w, refl)
  claim_from_keeps i (e ∷ sources) s = elim (Option-cases (claim_entry (token i) e.name q)) [
    | inl gone ↦ rw (gone, claim_from) (claim_from_keeps (i + 1) sources s)
    | inr ((q', task), moved) ↦
        rw (moved, claim_from)
          (
            claim_entry-IsWell (token i) e.name q (f.clean i) w q' task moved,
            total-claim_entry (token i) e.name q (f.clean i) w q' task s (f.unused i e.name) moved,
          )
  ]

  -- From a queue whose names are in form, a claim neither loses nor doubles a task of any slug, and
  -- keeps the names in form, if the tokens it draws are unused and hold no underscore.
  pub claim_one_keeps :
      (s : Text) → IsWell (claim_one token q).0 × (total s (claim_one token q).0 ≡ total s q)
  unfolding claim_one
  claim_one_keeps s = claim_from_keeps 0 (pending_tasks q) s

is_some-value {ℓ} : {A : Type ℓ} (o : Option A) → is_some o ≡ true → (a : A) × (o ≡ some a)
is_some-value none h = cc
is_some-value (some a) h = (a, refl)

abbrev IsIn : Dir → Entry → Type 0
IsIn d e = is_some (find_entry e.name d) ≡ true

All-IsIn_cons : (f : Entry) (d d' : Dir) → All (IsIn d) d' → All (IsIn (f ∷ d)) d'
unfolding find_entry
All-IsIn_cons f d [] h = tt
All-IsIn_cons f d (e ∷ d') h = (ground arith, All-IsIn_cons f d d' h.1)

All-IsIn : (d : Dir) → All (IsIn d) d
All-IsIn [] = tt
All-IsIn (e ∷ d) =
    (unfold find_entry in ground (arith, teq_refl e.name), All-IsIn_cons e d d (All-IsIn d))

module _ (P : Entry → Type 0) where
  All-filter : (p : Entry → Bool) (d : Dir) → All P d → All P (filter p d)
  All-filter p [] h = tt
  All-filter p (e ∷ d) h = elim (Bool-cases (p e)) [
    | inl y ↦ rw y (h.0, All-filter p d h.1)
    | inr n ↦ rw n (All-filter p d h.1)
  ]

  All-insert_sorted : (e : Entry) (d : Dir) → P e → All P d → All P (insert_sorted e d)
  unfolding insert_sorted
  All-insert_sorted e [] h k = (h, tt)
  All-insert_sorted e (f ∷ d) h k = elim (Bool-cases (text_le e.name f.name)) [
    | inl y ↦ rw y (h, k)
    | inr n ↦ rw n (k.0, All-insert_sorted e d h k.1)
  ]

  All-sort_entries : (d : Dir) → All P d → All P (sort_entries d)
  unfolding sort_entries
  All-sort_entries [] h = tt
  All-sort_entries (e ∷ d) h = All-insert_sorted e (sort_entries d) h.0 (All-sort_entries d h.1)

text_le_refl : (a : Text) → text_le a a ≡ true
unfolding text_le
text_le_refl [] = refl
text_le_refl (x ∷ a) = ground (arith, text_le_refl a)

text_le_total : (a b : Text) → text_le a b ≡ false → text_le b a ≡ true
unfolding text_le
text_le_total [] b h = cc
text_le_total (x ∷ a) [] h = refl
text_le_total (x ∷ a) (y ∷ b) h = ground (arith, text_le_total a b)

text_le_trans : (a b c : Text) → text_le a b ≡ true → text_le b c ≡ true → text_le a c ≡ true
unfolding text_le
text_le_trans [] b c h k = refl
text_le_trans (x ∷ a) [] c h k = cc
text_le_trans (x ∷ a) (y ∷ b) [] h k = cc
text_le_trans (x ∷ a) (y ∷ b) (z ∷ c) h k = ground (arith, text_le_trans a b c)

abbrev IsLe : Entry → Entry → Type 0
IsLe e f = text_le e.name f.name ≡ true

All-IsLe_trans : (e f : Entry) (d : Dir) → IsLe e f → All (IsLe f) d → All (IsLe e) d
All-IsLe_trans e f [] h k = tt
All-IsLe_trans e f (g ∷ d) h k =
    (text_le_trans e.name f.name g.name h k.0, All-IsLe_trans e f d h k.1)

insert-IsLe : (e f : Entry) (d : Dir) → All (IsLe f) d → IsLe f e → All (IsLe f) (e ∷ d)
insert-IsLe e f d h k = (k, h)

insert_sorted-head :
    (d : Dir) (f e : Entry) (sorted rest : Dir)
    → ((g : Entry) (r : Dir) → sorted ≡ g ∷ r → All (IsLe g) d)
    → (sorted ≡ [] → d ≡ [])
    → insert_sorted f sorted ≡ e ∷ rest
    → All (IsLe e) (f ∷ d)
unfolding insert_sorted
insert_sorted-head d f e [] rest ih nil h =
    let same : f ≡ e = cc in
    subst₂ (λ x l. All (IsLe x) (f ∷ l)) same (sym (nil refl)) (text_le_refl f.name, tt)
insert_sorted-head d f e (g ∷ r) rest ih nil h = elim (Bool-cases (text_le f.name g.name)) [
  | inl y ↦
      let same : f ≡ e = ground arith in
      subst (λ x. All (IsLe x) (f ∷ d)) same
        (text_le_refl f.name, All-IsLe_trans f g d y (ih g r refl))
  | inr n ↦
      let same : g ≡ e = ground arith in
      subst (λ x. All (IsLe x) (f ∷ d)) same (text_le_total f.name g.name n, ih g r refl)
]

insert_sorted-ne-nil : (e : Entry) (d : Dir) → insert_sorted e d ≢ []
unfolding insert_sorted
insert_sorted-ne-nil e [] h = cc
insert_sorted-ne-nil e (f ∷ d) h = ground arith

sort_entries-nil : (d : Dir) → sort_entries d ≡ [] → d ≡ []
unfolding sort_entries
sort_entries-nil [] h = refl
sort_entries-nil (e ∷ d) h = absurd (insert_sorted-ne-nil e (sort_entries d) h)

-- The head of a sorted directory has the least name.
sort_entries-head : (d : Dir) (e : Entry) (rest : Dir) → sort_entries d ≡ e ∷ rest → All (IsLe e) d
unfolding sort_entries
sort_entries-head [] e rest h = cc
sort_entries-head (f ∷ d) e rest h =
    insert_sorted-head d f e (sort_entries d) rest (λ g r. sort_entries-head d g r)
      (sort_entries-nil d) h

pending_tasks-IsIn : (q : Queue) → All (IsIn q.pending) (pending_tasks q)
unfolding pending_tasks
pending_tasks-IsIn q =
    All-sort_entries (IsIn q.pending) (filter is_visible q.pending)
      (All-filter (IsIn q.pending) is_visible q.pending (All-IsIn q.pending))

All-filter_visible : (d : Dir) → All (λ e. is_visible e ≡ true) (filter is_visible d)
All-filter_visible [] = tt
All-filter_visible (e ∷ d) = elim (Bool-cases (is_visible e)) [
  | inl y ↦ rw y (y, All-filter_visible d)
  | inr n ↦ rw n (All-filter_visible d)
]

All-pending_tasks : (q : Queue) → All (λ e. is_visible e ≡ true) (pending_tasks q)
unfolding pending_tasks
All-pending_tasks q =
    All-sort_entries (λ e. is_visible e ≡ true) (filter is_visible q.pending)
      (All-filter_visible q.pending)

-- What a claim under the token leaves and returns: a visible task of pending, the first of them by name,
-- is taken out of pending, and its file is put into in-flight under its claim name.
pub record Takes (token : Text) (q : Queue) (after : Queue × Option QueueTask) : Type 0 where
  pub first : Entry
  pub file : Entry
  pub visible : is_visible first ≡ true
  pub found : find_entry first.name q.pending ≡ some file
  pub least : All (IsLe first) (filter is_visible q.pending)
  pub left : after.0.pending ≡ remove_entry first.name q.pending
  pub put :
      after.0.in_flight
      ≡ put_entry (record file { name = token ++ (claim_token_sep ++ first.name) }) q.in_flight
  pub rest : (after.0.done ≡ q.done) × (after.0.failed ≡ q.failed)
  pub claimed :
      after.1
      ≡ some (record {
        place = Place.in_flight;
        name = token ++ (claim_token_sep ++ first.name);
        slug = slug_from_task first.name;
      })

claim_from-first :
    (token : ℕ → Text) (q : Queue) (l : Dir)
    → pending_tasks q ≡ l
    → ((pending_tasks q ≡ []) × (claim_from token 0 l q ≡ (q, none)))
      ⊎ Takes (token 0) q (claim_from token 0 l q)
unfolding claim_from claim_entry
claim_from-first token q [] h = inl (h, refl)
claim_from-first token q (e ∷ l) h =
    let here = (subst (All (IsIn q.pending)) h (pending_tasks-IsIn q)).0 in
    let moved : (e' : Entry) × (find_entry e.name q.pending ≡ some e') =
      is_some-value (find_entry e.name q.pending) here in
    inr (record {
      first = e;
      file = moved.0;
      visible = (subst (All (λ f. is_visible f ≡ true)) h (All-pending_tasks q)).0;
      found = moved.1;
      least = sort_entries-head (filter is_visible q.pending) e l (unfold pending_tasks in h);
      left = rw (moved.1, claim_from, claim_entry) refl;
      put = rw (moved.1, claim_from, claim_entry) refl;
      rest = rw (moved.1, claim_from, claim_entry) (refl, refl);
      claimed = rw (moved.1, claim_from, claim_entry) refl;
    })

-- With tasks pending, a claim takes the visible file of pending whose name comes first: it leaves
-- pending and goes, with its contents, into in-flight under the token, the separator and its name, and
-- that task is returned; done and failed stay as they are. With no task pending a claim returns
-- nothing and changes nothing.
pub claim_one-Takes :
    (token : ℕ → Text) (q : Queue)
    → ((pending_tasks q ≡ []) × (claim_one token q ≡ (q, none)))
      ⊎ Takes (token 0) q (claim_one token q)
unfolding claim_one
claim_one-Takes token q = claim_from-first token q (pending_tasks q) refl
