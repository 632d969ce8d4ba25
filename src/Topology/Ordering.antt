-- ===== src/Topology/Ordering.antt =====
-- scripts/factory_run.py: `ordered_tasks`, and what an ordering is.
use ao_operator.Base.{
  ℕ, zero, suc, ◌≡◌, ◌≢◌, Bool, true, not, List, [], ◌∷◌, ◌++◌, map, filter, all, any, count,
}
use ao_operator.Text.{Text, teq}
use ao_operator.Dict.{Dict, set}
use ao_operator.Topology.Defs.{Task, ids_of}

-- `out_of_fuel` is the model's: the loop has no bound of its own.
pub data Ordered : Type 0 where
  ordered : List Task → Ordered
  cycle_or_missing out_of_fuel : Ordered

-- `{str(task["id"]): task for task in tasks}`, from a dict on
unfoldable pub remaining_from : Dict Task → List Task → Dict Task
unfolding set
remaining_from d [] = d
remaining_from d (t ∷ ts) = remaining_from (set t.id t d) ts

abbrev pub is_done : List Text → Text → Bool
is_done completed id = any (teq id) completed

abbrev pub is_ready : List Text → Task → Bool
is_ready completed t = all (is_done completed) t.deps

abbrev pub waits : List Text → Task → Bool
waits completed t = not (is_ready completed t)

abbrev pub then_ordered : List Task → Ordered → Ordered
then_ordered ready (ordered ts) = ordered (ready ++ ts)
then_ordered ready other = other

-- A round that takes nothing raises.
abbrev pub round_of : List Task → Ordered → Ordered
round_of [] rest = cycle_or_missing
round_of (r ∷ ready) rest = then_ordered (r ∷ ready) rest

unfoldable pub order_from : ℕ → List Text → List Task → Ordered
order_from fuel completed [] = ordered []
order_from zero completed (t ∷ ts) = out_of_fuel
order_from (suc fuel) completed (t ∷ ts) =
    let ready = filter (is_ready completed) (t ∷ ts) in
    let rest = order_from fuel (completed ++ ids_of ready) (filter (waits completed) (t ∷ ts)) in
    round_of ready rest

unfoldable pub ordered_tasks : ℕ → List Task → Ordered
unfolding order_from remaining_from
ordered_tasks fuel tasks =
    order_from fuel [] (map (λ (e : Text × Task). e.1) (remaining_from [] tasks))

-- In a list that is run from left to right, each task finds its dependencies done.
abbrev pub Respects : List Text → List Task → Type 0
Respects completed [] = Unit
Respects completed (t ∷ ts) = (is_ready completed t ≡ true) × Respects (completed ++ t.id ∷ []) ts

-- Two lists that hold the same tasks, each as often.
abbrev pub SameTasks : List Task → List Task → Type 0
SameTasks ts us = (p : Task → Bool) → count p ts ≡ count p us

-- What an outcome of the ordering promises of the tasks: an end, and either all of them in a list that
-- respects the dependencies, or such a list of some of them and the others, one at least, none of
-- which finds its dependencies in that list.
abbrev pub IsOrder : List Text → List Task → Ordered → Type 0
IsOrder completed tasks (ordered ts) = SameTasks ts tasks × Respects completed ts
IsOrder completed tasks cycle_or_missing =
    (ts : List Task) × (left : List Task) × (left ≢ [])
    × SameTasks (ts ++ left) tasks
    × Respects completed ts
    × (all (waits (completed ++ ids_of ts)) left ≡ true)
IsOrder completed tasks out_of_fuel = ⊥
