-- ===== src/Topology/Split.antt =====
-- The split of scripts/factory_run.py loses no task and hands every review on.
use mathlib.Core.Path.{subst}
use ao_operator.Base.{
  refl, true, ◌⊎◌, ◌≡◌, sym, ap, ◌∙◌, Bool, not, ◌&&◌, ◌||◌, Option, none, some, List, [], ◌∷◌,
  ◌++◌, filter, any, is_some, arith, append_assoc, append-nil, Bool-cases, inl, inr,
}
use ao_operator.Text.{Text, teq, teq→eq}
use ao_operator.Roles.{is_slice_reviewer}
use ao_operator.Topology.Defs.{
  Task, Found, integrator, evaluator, find_chains, ids_of, chains_of, split_topology,
}

abbrev pub is_integrator : Task → Bool
is_integrator t = teq t.id integrator

abbrev pub is_evaluator : Task → Bool
is_evaluator t = not (is_integrator t) && teq t.id evaluator

abbrev pub is_first : Task → Bool
is_first t = not (is_integrator t) && not (teq t.id evaluator)

find_chains_lem :
    (f : Found) (ts : List Task)
    → ((find_chains f ts).chain1 ≡ f.chain1 ++ filter is_first ts)
      × (is_some (find_chains f ts).integrator ≡ (is_some f.integrator || any is_integrator ts))
      × (is_some (find_chains f ts).evaluator ≡ (is_some f.evaluator || any is_evaluator ts))
unfolding find_chains
find_chains_lem f [] = (sym (append-nil f.chain1), ground arith, ground arith)
find_chains_lem f (t ∷ ts) = elim (Bool-cases (teq t.id integrator)) [
  | inl one ↦
      let (c, i, e) = find_chains_lem (record f { integrator = some t }) ts in
      rw (one, find_chains) (c, ground (arith, i), e)
  | inr none_yet ↦ elim (Bool-cases (teq t.id evaluator)) [
    | inl two ↦
        let (c, i, e) = find_chains_lem (record f { evaluator = some t }) ts in
        rw (none_yet, two, find_chains) (c, i, ground (arith, e))
    | inr other ↦
        let (c, i, e) = find_chains_lem (record f { chain1 = f.chain1 ++ t ∷ [] }) ts in
        rw (none_yet, other, find_chains)
          (c ∙ append_assoc f.chain1 (t ∷ []) (filter is_first ts), i, e)
  ]
]

is_some-chains_of :
    (f : Found) → is_some (chains_of f) ≡ (is_some f.integrator && is_some f.evaluator)
is_some-chains_of f = ground arith

-- The split is made exactly if there are an integrator and an evaluator among the tasks.
pub is_some-split_topology :
    (tasks : List Task)
    → is_some (split_topology tasks) ≡ (any is_integrator tasks && any is_evaluator tasks)
unfolding split_topology
is_some-split_topology tasks =
    let f = find_chains (record { chain1 = []; integrator = none; evaluator = none }) tasks in
    let (c, i, e) =
      find_chains_lem (record { chain1 = []; integrator = none; evaluator = none }) tasks in
    is_some-chains_of f ∙ cc (i, e)

unfoldable pub last_or {ℓ} : {A : Type ℓ} → Option A → List A → Option A
last_or o [] = o
last_or o (x ∷ l) = last_or (some x) l

-- The last element that passes the test.
abbrev pub last_of {ℓ} : {A : Type ℓ} → (A → Bool) → List A → Option A
last_of p l = last_or none (filter p l)

find_chains-last :
    (f : Found) (ts : List Task)
    → ((find_chains f ts).integrator ≡ last_or f.integrator (filter is_integrator ts))
      × ((find_chains f ts).evaluator ≡ last_or f.evaluator (filter is_evaluator ts))
unfolding find_chains last_or
find_chains-last f [] = (refl, refl)
find_chains-last f (t ∷ ts) = elim (Bool-cases (teq t.id integrator)) [
  | inl one ↦ rw (one, find_chains) (find_chains-last (record f { integrator = some t }) ts)
  | inr none_yet ↦ elim (Bool-cases (teq t.id evaluator)) [
    | inl two ↦
        rw (none_yet, two, find_chains) (find_chains-last (record f { evaluator = some t }) ts)
    | inr other ↦
        rw (none_yet, other, find_chains)
          (find_chains-last (record f { chain1 = f.chain1 ++ t ∷ [] }) ts)
  ]
]

last_or-passes :
    (p : Task → Bool) (o : Option Task) (l : List Task) (t : Task)
    → last_or o (filter p l) ≡ some t
    → (o ≡ some t) ⊎ (p t ≡ true)
unfolding last_or
last_or-passes p o [] t h = inl h
last_or-passes p o (x ∷ l) t h = elim (Bool-cases (p x)) [
  | inr fails ↦ last_or-passes p o l t (rw fails at h)
  | inl holds ↦ elim (last_or-passes p (some x) l t (rw (holds, last_or) at h)) [
    | inl same ↦ let e : x ≡ t = cc same in inr (subst (λ y. p y ≡ true) e holds)
    | inr passes ↦ inr passes
  ]
]

last_of-passes : (p : Task → Bool) (l : List Task) (t : Task) → last_of p l ≡ some t → p t ≡ true
last_of-passes p l t h = elim (last_or-passes p none l t h) [
  | inl impossible ↦ absurd (ground arith)
  | inr passes ↦ passes
]

-- A task of the second chain: one of the tasks, but for its deps and what it is handed.
abbrev pub handed : List Text → List Text → Task → Task
handed deps handoffs t = record t { deps = deps; chain1_handoffs = some handoffs }

chains_of_lem :
    (c first second : List Task) (oi oe : Option Task)
    → chains_of (record { chain1 = c; integrator = oi; evaluator = oe }) ≡ some (first, second)
    → (i : Task) × (e : Task) × (oi ≡ some i)
      × (oe ≡ some e)
      × (first ≡ c)
      × (second
          ≡ handed [] (filter is_slice_reviewer (ids_of c)) i
            ∷ handed (integrator ∷ []) (ids_of c) e
            ∷ [])
chains_of_lem c first second none e h = absurd (ground arith)
chains_of_lem c first second (some i) none h = absurd (ground arith)
chains_of_lem c first second (some i) (some e) h = (i, e, refl, refl, cc h, sym (ap chain2 h))
  where
    chain2 : Option (List Task × List Task) → List Task
    chain2 none = []
    chain2 (some (a, b)) = b

-- Where the split is made, the first chain has the tasks that are neither integrator nor evaluator,
-- in their order. The second has two tasks: the last integrator of the tasks, which waits for nothing
-- and is handed the ids of all reviewers of slices, and then the last evaluator, which waits for the
-- integrator and is handed all ids of the first chain; each is otherwise as it was, with its id.
pub split_topology_lem :
    (tasks first second : List Task)
    → split_topology tasks ≡ some (first, second)
    → (i : Task) × (e : Task) × (last_of is_integrator tasks ≡ some i)
      × (last_of is_evaluator tasks ≡ some e)
      × (i.id ≡ integrator)
      × (e.id ≡ evaluator)
      × (first ≡ filter is_first tasks)
      × (second
          ≡ handed [] (filter is_slice_reviewer (ids_of first)) i
            ∷ handed (integrator ∷ []) (ids_of first) e
            ∷ [])
unfolding split_topology
split_topology_lem tasks first second h =
    let start : Found = record { chain1 = []; integrator = none; evaluator = none } in
    let f = find_chains start tasks in
    let (i, e, fi, fe, same, both) =
      chains_of_lem f.chain1 first second f.integrator f.evaluator h in
    let last_i = sym (find_chains-last start tasks).0 ∙ fi in
    let last_e = sym (find_chains-last start tasks).1 ∙ fe in
    (
      i,
      e,
      last_i,
      last_e,
      teq→eq i.id integrator (last_of-passes is_integrator tasks i last_i),
      teq→eq e.id evaluator (ground (arith, last_of-passes is_evaluator tasks e last_e)),
      same ∙ (find_chains_lem start tasks).0,
      both
          ∙ ap
              (λ c.
                handed [] (filter is_slice_reviewer (ids_of c)) i
                ∷ handed (integrator ∷ []) (ids_of c) e
                ∷ [])
              (sym same),
    )
