-- ===== src/Topology/Tests.antt =====
-- The topology on small inputs.
use ao_operator.Base.{◌≡◌, refl, ◌&&◌, none, some, List, [], ◌∷◌, any, filter, is_some, arith}
use ao_operator.Text.{Text, codes, starts_with}
use ao_operator.Roles.{is_slice_reviewer}
use ao_operator.Topology.Defs.{
  Task, integrator, evaluator, ids_of, split_topology, expand_slice_topology,
}
use ao_operator.Topology.Split.{
  is_first, is_integrator, is_evaluator, last_of, handed, is_some-split_topology,
  split_topology_lem,
}
use ao_operator.Topology.Order.{tasks_of, ordered_tasks-IsOrder}
use ao_operator.Topology.Ordering.{IsOrder, ordered_tasks}
use ao_operator.Topology.Expand.{concat_map, tasks_for, reviews_of, expand_slice_topology_lem}

abbrev task : Text → List Text → Task
task id deps = record { id = id; deps = deps; writes = []; chain1_handoffs = none; fields = [] }

abbrev baseline : List Task
baseline =
    task (codes "evaluator-closer") (codes "integrator" ∷ [])
    ∷ task (codes "implementer-slice") []
    ∷ task (codes "reviewer-slice") (codes "implementer-slice" ∷ [])
    ∷ task (codes "integrator") (codes "reviewer-slice" ∷ [])
    ∷ []

abbrev first_chain : List Task
first_chain =
    task (codes "implementer-slice") []
    ∷ task (codes "reviewer-slice") (codes "implementer-slice" ∷ [])
    ∷ []

abbrev second_chain : List Task
second_chain =
    record (task (codes "integrator") []) { chain1_handoffs = some (codes "reviewer-slice" ∷ []) }
    ∷ record (task (codes "evaluator-closer") (codes "integrator" ∷ [])) {
      chain1_handoffs = some (codes "implementer-slice" ∷ codes "reviewer-slice" ∷ []);
    }
    ∷ []

expanded_ids :
    ids_of (expand_slice_topology baseline 2 [])
    ≡ codes "evaluator-closer"
      ∷ codes "implementer-slice-1"
      ∷ codes "implementer-slice-2"
      ∷ codes "reviewer-slice-1"
      ∷ codes "reviewer-slice-2"
      ∷ codes "integrator"
      ∷ []
unfolding expand_slice_topology
expanded_ids = refl

expand_slice_topology_lem_example :
    expand_slice_topology baseline 2 []
    ≡ concat_map (tasks_for 2 [] (reviews_of (expand_slice_topology baseline 2 []))) baseline
unfolding starts_with
expand_slice_topology_lem_example = expand_slice_topology_lem baseline 2 [] (omega arith) refl

expanded_reviews :
    reviews_of (expand_slice_topology baseline 2 [])
    ≡ codes "reviewer-slice-1" ∷ codes "reviewer-slice-2" ∷ []
unfolding expand_slice_topology is_slice_reviewer
expanded_reviews = refl

is_some-split_topology_example :
    is_some (split_topology baseline) ≡ (any is_integrator baseline && any is_evaluator baseline)
is_some-split_topology_example = is_some-split_topology baseline

split_topology_lem_example :
    (i : Task) × (e : Task) × (last_of is_integrator baseline ≡ some i)
    × (last_of is_evaluator baseline ≡ some e)
    × (i.id ≡ integrator)
    × (e.id ≡ evaluator)
    × (first_chain ≡ filter is_first baseline)
    × (second_chain
        ≡ handed [] (filter is_slice_reviewer (ids_of first_chain)) i
          ∷ handed (integrator ∷ []) (ids_of first_chain) e
          ∷ [])
split_topology_lem_example =
    split_topology_lem baseline first_chain second_chain (unfold split_topology in refl)

ordered_tasks-IsOrder_example : IsOrder [] (tasks_of baseline) (ordered_tasks 4 baseline)
ordered_tasks-IsOrder_example = ordered_tasks-IsOrder 4 baseline (omega arith)
