-- ===== src/Topology/Expand.antt =====
-- What `expand_slice_topology` of scripts/factory_run.py makes of a baseline.
use ao_operator.Base.{
  ℕ, zero, suc, ◌+◌, ◌<◌, ◌≡◌, refl, sym, ap, ◌∙◌, Bool, true, false, not, Option, none, some, List,
  [], ◌∷◌, ◌++◌, if◌then◌else◌, map, filter, all, arith, Bool-cases, inl, inr,
}
use ao_operator.Text.{Text, teq, teq→eq, starts_with}
use ao_operator.Partition.{Slice}
use ao_operator.Roles.{implementer, reviewer, reviewer_prefix, is_slice_reviewer}
use ao_operator.Topology.Defs.{
  Task, integrator, ids_of, writes_of, with_writes, implementer_id, reviewer_id, ids_from,
  implementers, reviewers, reviewer_ids, expand_task, expand_from, expand_slice_topology,
}

-- The numbers `i`, …, as many as are asked for.
unfoldable pub count_from : ℕ → ℕ → List ℕ
count_from i zero = []
count_from i (suc n) = i ∷ count_from (i + 1) n

unfoldable pub concat_map : (Task → List Task) → List Task → List Task
concat_map f [] = []
concat_map f (t ∷ ts) = f t ++ concat_map f ts

abbrev pub slice_implementer : List Slice → Task → ℕ → Task
slice_implementer specs t i = with_writes (writes_of i specs) (record t { id = implementer_id i })

abbrev pub slice_reviewer : Task → ℕ → Task
slice_reviewer t i = record t { id = reviewer_id i; deps = implementer_id i ∷ [] }

-- What stands for one task of the baseline, where `reviews` are the ids of the slices' reviewers.
abbrev pub tasks_for : ℕ → List Slice → List Text → Task → List Task
tasks_for n specs reviews t =
    if teq t.id implementer
    then map (slice_implementer specs t) (count_from 1 n)
    else if teq t.id reviewer
    then map (slice_reviewer t) (count_from 1 n)
    else if teq t.id integrator
    then record t { deps = reviews } ∷ []
    else t ∷ []

implementers-map :
    (t : Task) (specs : List Slice) (i n : ℕ)
    → implementers t specs i n ≡ map (slice_implementer specs t) (count_from i n)
unfolding implementers count_from
implementers-map t specs i zero = refl
implementers-map t specs i (suc n) =
    ap (λ ts. slice_implementer specs t i ∷ ts) (implementers-map t specs (i + 1) n)

reviewers-map : (t : Task) (i n : ℕ) → reviewers t i n ≡ map (slice_reviewer t) (count_from i n)
unfolding reviewers count_from
reviewers-map t i zero = refl
reviewers-map t i (suc n) = ap (λ ts. slice_reviewer t i ∷ ts) (reviewers-map t (i + 1) n)

expand_task-for :
    (n : ℕ) (specs : List Slice) (reviews : List Text) (t : Task)
    → expand_task n specs reviews t ≡ tasks_for n specs reviews t
unfolding expand_task
expand_task-for n specs reviews t = cc (implementers-map t specs 1 n, reviewers-map t 1 n)

expand_from-for :
    (n : ℕ) (specs : List Slice) (reviews : List Text) (ts : List Task)
    → expand_from n specs reviews ts ≡ concat_map (tasks_for n specs reviews) ts
unfolding expand_from concat_map
expand_from-for n specs reviews [] = refl
expand_from-for n specs reviews (t ∷ ts) =
    cc (expand_task-for n specs reviews t, expand_from-for n specs reviews ts)

-- The ids of the slices' reviewers among tasks.
abbrev pub reviews_of : List Task → List Text
reviews_of ts = filter is_slice_reviewer (ids_of ts)

reviews_of-append : (ts us : List Task) → reviews_of (ts ++ us) ≡ reviews_of ts ++ reviews_of us
reviews_of-append [] us = refl
reviews_of-append (t ∷ ts) us = elim (Bool-cases (is_slice_reviewer t.id)) [
  | inl here ↦ rw here (ap (λ l. t.id ∷ l) (reviews_of-append ts us))
  | inr other ↦ rw other (reviews_of-append ts us)
]

id-with_writes : (o : Option (List Text)) (t : Task) → (with_writes o t).id ≡ t.id
id-with_writes none t = refl
id-with_writes (some w) t = refl

reviews_of-implementers :
    (t : Task) (specs : List Slice) (i n : ℕ) → reviews_of (implementers t specs i n) ≡ []
unfolding implementers is_slice_reviewer
reviews_of-implementers t specs i zero = refl
reviews_of-implementers t specs i (suc n) =
    rw (id-with_writes (writes_of i specs) (record t { id = implementer_id i }))
      (reviews_of-implementers t specs (i + 1) n)

reviews_of-reviewers : (t : Task) (i n : ℕ) → reviews_of (reviewers t i n) ≡ ids_from i n
unfolding reviewers ids_from is_slice_reviewer
reviews_of-reviewers t i zero = refl
reviews_of-reviewers t i (suc n) = ap (λ l. reviewer_id i ∷ l) (reviews_of-reviewers t (i + 1) n)

-- A task whose id does not yet have the form of a slice's reviewer.
abbrev pub is_unsliced : Task → Bool
is_unsliced t = not (starts_with reviewer_prefix t.id)

reviews_of-one :
    (t : Task) → is_unsliced t ≡ true → teq t.id reviewer ≡ false → is_slice_reviewer t.id ≡ false
unfolding is_slice_reviewer
reviews_of-one t u r = ground (arith, u, r)

reviews_of-expand_task :
    (n : ℕ) (specs : List Slice) (shared : List Text) (t : Task)
    → is_unsliced t ≡ true
    → reviews_of (expand_task n specs shared t)
      ≡ (if teq t.id implementer then [] else if teq t.id reviewer then ids_from 1 n else [])
unfolding expand_task
reviews_of-expand_task n specs shared t u = elim (Bool-cases (teq t.id implementer)) [
  | inl one ↦ rw one (reviews_of-implementers t specs 1 n)
  | inr other ↦ elim (Bool-cases (teq t.id reviewer)) [
    | inl two ↦ rw (other, two) (reviews_of-reviewers t 1 n)
    | inr rest ↦ elim (Bool-cases (teq t.id integrator)) [
      | inl three ↦ rw (other, rest, three, reviews_of-one t u rest) refl
      | inr none_of ↦ rw (other, rest, none_of, reviews_of-one t u rest) refl
    ]
  ]
]

implementer-ne-reviewer : (id : Text) → teq id implementer ≡ true → teq id reviewer ≡ false
unfolding teq
implementer-ne-reviewer id h = rw (teq→eq id implementer h) refl

-- What the loop collects as the ids of reviewers are the ids of the reviewers that it makes.
reviews_of-expand_from :
    (n : ℕ) (specs : List Slice) (shared : List Text) (ts : List Task)
    → all is_unsliced ts ≡ true
    → reviews_of (expand_from n specs shared ts) ≡ reviewer_ids n ts
unfolding expand_from reviewer_ids
reviews_of-expand_from n specs shared [] u = refl
reviews_of-expand_from n specs shared (t ∷ ts) u =
    let here = reviews_of-expand_task n specs shared t (ground (arith, u)) in
    let rest = reviews_of-expand_from n specs shared ts (ground (arith, u)) in
    reviews_of-append (expand_task n specs shared t) (expand_from n specs shared ts)
    ∙ elim (Bool-cases (teq t.id implementer)) [
      | inl one ↦ rw (here, rest, one, implementer-ne-reviewer t.id one) refl
      | inr other ↦ elim (Bool-cases (teq t.id reviewer)) [
        | inl two ↦ rw (here, rest, other, two) refl
        | inr none_of ↦ rw (here, rest, other, none_of) refl
      ]
    ]

-- For two slices or more, and a baseline in which no id has the prefix of a slice's reviewer, the
-- expansion has, in the order of the baseline, for the implementer one task for each slice, with the
-- writes of the slice if there are any; for the reviewer one task for each slice, which depends on the
-- implementer of that slice alone; for an integrator that task with, as its deps, the ids of all
-- slices' reviewers in the expansion; and every other task as it was.
pub expand_slice_topology_lem :
    (baseline : List Task) (n : ℕ) (specs : List Slice)
    → 1 < n
    → all is_unsliced baseline ≡ true
    → expand_slice_topology baseline n specs
      ≡ concat_map
          (tasks_for n specs (reviews_of (expand_slice_topology baseline n specs)))
          baseline
unfolding expand_slice_topology
expand_slice_topology_lem baseline n specs h u =
    let made = expand_from n specs (reviewer_ids n baseline) baseline in
    let opened : expand_slice_topology baseline n specs ≡ made = ground arith in
    let wired = reviews_of-expand_from n specs (reviewer_ids n baseline) baseline u in
    opened
    ∙ expand_from-for n specs (reviewer_ids n baseline) baseline
    ∙ ap (λ l. concat_map (tasks_for n specs l) baseline) (sym (ap reviews_of opened ∙ wired))
