-- ===== src/Topology/Defs.antt =====
-- `expand_slice_topology` and `_split_topology_for_n_ge_2` of scripts/factory_run.py, and its
-- `ordered_tasks`. A task has the fields that these read or write; the others, which they copy, are
-- one dict. The slice specifications are the partition's.
use ao_operator.Base.{
  ℕ, zero, suc, ◌+◌, Option, none, some, List, [], ◌∷◌, ◌++◌, ◌==◌, leb, if◌then◌else◌, map, filter,
}
use ao_operator.Text.{Text, codes, teq, decimal}
use ao_operator.Dict.{Dict}
use ao_operator.Partition.{Slice}
use ao_operator.Roles.{
  implementer, reviewer, implementer_prefix, reviewer_prefix, is_slice_reviewer,
}

pub record Task : Type 0 where
  pub id : Text
  pub deps : List Text
  pub writes : List Text
  pub chain1_handoffs : Option (List Text)
  pub fields : Dict Text

abbrev pub integrator : Text
integrator = codes "integrator"

abbrev pub evaluator : Text
evaluator = codes "evaluator-closer"

-- `writes_by_slice.get(i)`: the last specification of a slice counts.
unfoldable pub writes_of : ℕ → List Slice → Option (List Text)
writes_of i [] = none
writes_of i (s ∷ specs) =
    let rest = writes_of i specs in
    elim rest [ none ↦ if s.slice_id == i then some s.writes else none | some w ↦ some w ]

abbrev pub with_writes : Option (List Text) → Task → Task
with_writes none t = t
with_writes (some w) t = record t { writes = w }

abbrev pub implementer_id : ℕ → Text
implementer_id i = implementer_prefix ++ decimal i

abbrev pub reviewer_id : ℕ → Text
reviewer_id i = reviewer_prefix ++ decimal i

-- The slices `i`, …, of a number of them.
unfoldable pub implementers : Task → List Slice → ℕ → ℕ → List Task
unfolding writes_of decimal
implementers t specs i zero = []
implementers t specs i (suc n) =
    with_writes (writes_of i specs) (record t { id = implementer_id i })
    ∷ implementers t specs (i + 1) n

unfoldable pub reviewers : Task → ℕ → ℕ → List Task
unfolding decimal
reviewers t i zero = []
reviewers t i (suc n) =
    record t { id = reviewer_id i; deps = implementer_id i ∷ [] } ∷ reviewers t (i + 1) n

unfoldable pub ids_from : ℕ → ℕ → List Text
unfolding decimal
ids_from i zero = []
ids_from i (suc n) = reviewer_id i ∷ ids_from (i + 1) n

-- The list `reviewer_ids` at the end of the loop: the integrator's tasks share this one object, so
-- that they see what is appended behind them too.
unfoldable pub reviewer_ids : ℕ → List Task → List Text
unfolding ids_from teq
reviewer_ids n [] = []
reviewer_ids n (t ∷ ts) =
    let rest = reviewer_ids n ts in if teq t.id reviewer then ids_from 1 n ++ rest else rest

-- The tasks that stand for one task of the baseline.
unfoldable pub expand_task : ℕ → List Slice → List Text → Task → List Task
unfolding implementers reviewers teq
expand_task n specs shared t =
    if teq t.id implementer
    then implementers t specs 1 n
    else if teq t.id reviewer
    then reviewers t 1 n
    else if teq t.id integrator
    then record t { deps = shared } ∷ []
    else t ∷ []

unfoldable pub expand_from : ℕ → List Slice → List Text → List Task → List Task
unfolding expand_task
expand_from n specs shared [] = []
expand_from n specs shared (t ∷ ts) = expand_task n specs shared t ++ expand_from n specs shared ts

unfoldable pub expand_slice_topology : List Task → ℕ → List Slice → List Task
unfolding expand_from reviewer_ids
expand_slice_topology baseline n specs =
    if leb n 1 then baseline else expand_from n specs (reviewer_ids n baseline) baseline

-- What the loop of the split has found.
pub record Found : Type 0 where
  pub chain1 : List Task
  pub integrator : Option Task
  pub evaluator : Option Task

unfoldable pub find_chains : Found → List Task → Found
unfolding teq
find_chains f [] = f
find_chains f (t ∷ ts) =
    find_chains
      (if teq t.id integrator
        then record f { integrator = some t }
        else if teq t.id evaluator
        then record f { evaluator = some t }
        else record f { chain1 = f.chain1 ++ t ∷ [] })
      ts

abbrev pub ids_of : List Task → List Text
ids_of ts = map (λ (t : Task). t.id) ts

-- The two chains; `none` is the error for want of an integrator or of an evaluator.
abbrev pub chains_of : Found → Option (List Task × List Task)
chains_of f = elim f.integrator [
  | none ↦ none
  | some i ↦ elim f.evaluator [
    | none ↦ none
    | some e ↦ some (
      f.chain1,
      record i { deps = []; chain1_handoffs = some (filter is_slice_reviewer (ids_of f.chain1)) }
          ∷ record e { deps = integrator ∷ []; chain1_handoffs = some (ids_of f.chain1) }
          ∷ [],
    )
  ]
]

unfoldable pub split_topology : List Task → Option (List Task × List Task)
unfolding find_chains is_slice_reviewer
split_topology tasks =
    chains_of (find_chains (record { chain1 = []; integrator = none; evaluator = none }) tasks)
