-- ===== src/Topology/Order.antt =====
-- `ordered_tasks` of scripts/factory_run.py: rounds that take all tasks whose dependencies are done.
use ao_operator.Base.{
  ℕ, zero, suc, ◌+◌, ◌<◌, ◌≤◌, ◌≡◌, ◌≢◌, refl, sym, ap, Bool, true, not, List, [], ◌∷◌, ◌++◌, map,
  filter, all, any, length, arith, Bool-cases, inl, inr, append_assoc, append-nil, count,
  count-append, ◌∙◌,
}
use ao_operator.Text.{Text, teq}
use mathlib.Core.Path.{subst}
use ao_operator.Dict.{Dict, set}
use ao_operator.Topology.Defs.{Task, ids_of}
use ao_operator.Topology.Ordering.{
  Ordered, ordered, remaining_from, is_done, is_ready, waits, then_ordered, round_of, order_from,
  ordered_tasks, Respects, IsOrder, cycle_or_missing, out_of_fuel,
}

any-append_left : (p : Text → Bool) (xs ys : List Text) → any p xs ≡ true → any p (xs ++ ys) ≡ true
any-append_left p [] ys h = absurd (ground arith)
any-append_left p (x ∷ xs) ys h = elim (Bool-cases (p x)) [
  | inl here ↦ rw here refl
  | inr there ↦ rw there (any-append_left p xs ys (rw there at h))
]

all-is_done : (c d ids : List Text) → all (is_done c) ids ≡ true → all (is_done (c ++ d)) ids ≡ true
all-is_done c d [] h = refl
all-is_done c d (i ∷ ids) h =
    let here : is_done c i ≡ true = ground (arith, h) in
    let there : all (is_done c) ids ≡ true = ground (arith, h) in
    ground (arith, any-append_left (teq i) c d here, all-is_done c d ids there)

all-is_ready :
    (c d : List Text) (ts : List Task)
    → all (is_ready c) ts ≡ true
    → all (is_ready (c ++ d)) ts ≡ true
all-is_ready c d [] h = refl
all-is_ready c d (t ∷ ts) h =
    let here : is_ready c t ≡ true = ground (arith, h) in
    let there : all (is_ready c) ts ≡ true = ground (arith, h) in
    ground (arith, all-is_done c d t.deps here, all-is_ready c d ts there)

Respects-append :
    (c : List Text) (ready ts : List Task)
    → all (is_ready c) ready ≡ true
    → Respects (c ++ ids_of ready) ts
    → Respects c (ready ++ ts)
Respects-append c [] ts h k = subst (λ l. Respects l ts) (append-nil c) k
Respects-append c (r ∷ ready) ts h k =
    let here : is_ready c r ≡ true = ground (arith, h) in
    let there : all (is_ready c) ready ≡ true = ground (arith, h) in
    (
      here,
      Respects-append (c ++ r.id ∷ []) ready ts (all-is_ready c (r.id ∷ []) ready there)
          (subst (λ l. Respects l ts) (sym (append_assoc c (r.id ∷ []) (ids_of ready))) k),
    )

all-filter {ℓ} : {A : Type ℓ} (p : A → Bool) (l : List A) → all p (filter p l) ≡ true
all-filter p [] = refl
all-filter p (x ∷ l) = ground (arith, all-filter p l)

count-filter_both {ℓ} :
    {A : Type ℓ} (p q : A → Bool) (l : List A)
    → count p (filter q l) + count p (filter (λ x. not (q x)) l) ≡ count p l
count-filter_both p q [] = refl
count-filter_both p q (x ∷ l) = ground (arith, count-filter_both p q l)

length-filter_both {ℓ} :
    {A : Type ℓ} (q : A → Bool) (l : List A)
    → length (filter q l) + length (filter (λ x. not (q x)) l) ≡ length l
length-filter_both q [] = refl
length-filter_both q (x ∷ l) = ground (arith, length-filter_both q l)

all-waits : (c : List Text) (ts : List Task) → filter (is_ready c) ts ≡ [] → all (waits c) ts ≡ true
all-waits c [] h = refl
all-waits c (t ∷ ts) h = ground (arith, all-waits c ts)

ids_of-append :
    (c : List Text) (xs ys : List Task) → (c ++ ids_of xs) ++ ids_of ys ≡ c ++ ids_of (xs ++ ys)
ids_of-append c xs ys = append_assoc c (ids_of xs) (ids_of ys) ∙ ap (λ l. c ++ l) (go xs)
  where
    go : (l : List Task) → ids_of l ++ ids_of ys ≡ ids_of (l ++ ys)
    go [] = refl
    go (t ∷ l) = ap (λ r. t.id ∷ r) (go l)

then_ordered-IsOrder :
    (c : List Text) (ready left tasks : List Task) (rest : Ordered)
    → all (is_ready c) ready ≡ true
    → ((p : Task → Bool) → count p ready + count p left ≡ count p tasks)
    → IsOrder (c ++ ids_of ready) left rest
    → IsOrder c tasks (then_ordered ready rest)
then_ordered-IsOrder c ready left tasks (ordered ts) h e (same, respects) = (
  λ p. omega (arith, same p, e p, count-append p ready ts),
  Respects-append c ready ts h respects,
)
then_ordered-IsOrder c ready left tasks cycle_or_missing h e
      (ts, others, some_left, same, respects, stuck) =
    (
      ready ++ ts,
      others,
      some_left,
      λ p. omega (
        arith,
        same p,
        e p,
        count-append p ready (ts ++ others),
        ap (count p) (append_assoc ready ts others),
      ),
      Respects-append c ready ts h respects,
      subst (λ l. all (waits l) others ≡ true) (ids_of-append c ready ts) stuck,
    )
then_ordered-IsOrder c ready left tasks out_of_fuel h e i = i

round_of-IsOrder :
    (c : List Text) (tasks ready : List Task) (rest : List Task → Ordered)
    → filter (is_ready c) tasks ≡ ready
    → ((r : List Task)
        → length (filter (waits c) tasks) < length tasks
        → IsOrder (c ++ ids_of r) (filter (waits c) tasks) (rest r))
    → tasks ≢ []
    → IsOrder c tasks (round_of ready (rest ready))
round_of-IsOrder c tasks [] rest e again some_left = (
  [],
  tasks,
  some_left,
  λ p. refl,
  tt,
  subst (λ l. all (waits l) tasks ≡ true) (sym (append-nil c)) (all-waits c tasks e),
)
round_of-IsOrder c tasks (r ∷ ready) rest e again some_left =
    let left = filter (waits c) tasks in
    then_ordered-IsOrder c (r ∷ ready) left tasks (rest (r ∷ ready))
      (ap (all (is_ready c)) (sym e) ∙ all-filter (is_ready c) tasks)
      (λ p. ap (λ l. count p l + count p left) (sym e) ∙ count-filter_both p (is_ready c) tasks)
      (again (r ∷ ready)
        (let n = ap length e in omega (arith, n, length-filter_both (is_ready c) tasks)))

order_from-IsOrder :
    (fuel : ℕ) (c : List Text) (ts : List Task)
    → length ts ≤ fuel
    → IsOrder c ts (order_from fuel c ts)
unfolding order_from
order_from-IsOrder fuel c [] h = (λ p. refl, tt)
order_from-IsOrder zero c (t ∷ ts) h = absurd (omega arith)
order_from-IsOrder (suc fuel) c (t ∷ ts) h =
    let left = filter (waits c) (t ∷ ts) in
    round_of-IsOrder c (t ∷ ts) (filter (is_ready c) (t ∷ ts))
      (λ ready. order_from fuel (c ++ ids_of ready) left) refl
      (λ ready shorter.
        order_from-IsOrder fuel (c ++ ids_of ready) left (omega (arith, h, shorter)))
      λ k. let n = ap length k in absurd (omega (arith, n))

length-set-le {ℓ} : {V : Type ℓ} (k : Text) (v : V) (d : Dict V) → length (set k v d) ≤ length d + 1
unfolding set
length-set-le k v [] = omega arith
length-set-le k v ((j, w) ∷ d) = ground (arith, length-set-le k v d)

length-remaining_from-le :
    (d : Dict Task) (ts : List Task) → length (remaining_from d ts) ≤ length d + length ts
unfolding remaining_from
length-remaining_from-le d [] = omega arith
length-remaining_from-le d (t ∷ ts) =
    omega (arith, length-remaining_from-le (set t.id t d) ts, length-set-le t.id t d)

length-tasks : (d : Dict Task) → length (map (λ (e : Text × Task). e.1) d) ≡ length d
length-tasks [] = refl
length-tasks (e ∷ d) = ap suc (length-tasks d)

abbrev pub tasks_of : List Task → List Task
tasks_of tasks = map (λ (e : Text × Task). e.1) (remaining_from [] tasks)

-- With as much fuel as there are tasks, the ordering ends by itself: it gives all tasks of the dict,
-- each behind all its dependencies, or it raises, and then it has put some of them in such an order
-- and none of the others, of which there is one at least, has all its dependencies among these.
pub ordered_tasks-IsOrder :
    (fuel : ℕ) (tasks : List Task)
    → length tasks ≤ fuel
    → IsOrder [] (tasks_of tasks) (ordered_tasks fuel tasks)
unfolding ordered_tasks
ordered_tasks-IsOrder fuel tasks h =
    order_from-IsOrder fuel [] (tasks_of tasks)
      (omega (arith, length-tasks (remaining_from [] tasks), h, length-remaining_from-le [] tasks))
