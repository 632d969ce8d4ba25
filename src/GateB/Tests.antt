-- ===== src/GateB/Tests.antt =====
-- Gate B on small inputs.
use ao_operator.Base.{
  Option, ◌≡◌, refl, ◌∙◌, ap, true, false, some, List, [], ◌∷◌, map, all, arith, Bool-cases, inl,
  inr,
}
use ao_operator.Text.{Text, codes, teq, teq→eq}
use ao_operator.Dict.{Dict}
use ao_operator.Partition.{Slice, partition, mutator_paths}
use ao_operator.GateB.Paths.{concrete_path, render_slug}
use ao_operator.GateB.Slices.{RawSlice, overlaps, validate_partition_slices}
use ao_operator.GateB.Owners.{writes_owned, validate_partition_slices-owned}
use ao_operator.GateB.Contracts.{is_concrete, slices_or}
use ao_operator.GateB.Fanout.{raw_of, rejoins, AreDistinct, validate_partition_slices-partition}
use ao_operator.Base.{not, ◌&&◌}
use ao_operator.Base.Empty.{is_empty}
use ao_operator.GateB.Profile.{
  Items, ProfileRole, ProfileFile, profile, absent, role_duplicate, validate_profile, roles_of,
}
use ao_operator.GateB.Profiled.{run_gate-profile}
use ao_operator.GateB.Passes.{is_new_each, run_gate-passes}
use ao_operator.GateB.Spec.{
  role_contracts, run_gate, constitution_contract, lint_constitution, Role,
}

abbrev slice : Text → Text → RawSlice
slice id path = record {
  id = some id;
  slice_id = some id;
  reads = some (some (codes "docs/plan.md") ∷ []);
  writes = some (some path ∷ []);
  verification = some (some (codes "pytest") ∷ []);
  merge_owner = some (codes "integrator");
  rejoin_artifact = some (codes "docs/join.md");
}

abbrev two_slices : List RawSlice
two_slices = slice (codes "1") (codes "src/a.py") ∷ slice (codes "2") (codes "src/b.py") ∷ []

no_errors : (validate_partition_slices (codes "run") two_slices).errors ≡ []
unfolding validate_partition_slices
no_errors = refl

one_path :
    (validate_partition_slices
      (codes "run")
      (slice (codes "1") (codes "src/a.py") ∷ slice (codes "2") (codes "src/a.py") ∷ [])).errors
    ≡ overlaps (codes "2") (codes "src/a.py") (codes "1") ∷ []
unfolding validate_partition_slices
one_path = refl

validate_partition_slices-owned_example :
    (owner : Dict Text) × (all
        (writes_owned (codes "run") owner)
        (validate_partition_slices (codes "run") two_slices).slices
      ≡ true)
validate_partition_slices-owned_example =
    validate_partition_slices-owned (codes "run") two_slices no_errors

abbrev scoped : List Text
scoped = codes "src/a.py" ∷ codes "docs/plans/p.md" ∷ codes "src/b.py" ∷ []

scoped_paths : mutator_paths scoped ≡ codes "src/a.py" ∷ codes "src/b.py" ∷ []
unfolding mutator_paths
scoped_paths = refl

abbrev scoped_slices : List Slice
scoped_slices = slices_or [] (partition 2 scoped)

scoped_partition : partition 2 scoped ≡ some scoped_slices
unfolding partition
scoped_partition = refl

paths_rejoin : rejoins (codes "run") ≡ true
unfolding render_slug concrete_path
paths_rejoin = refl

paths_concrete : all (is_concrete (codes "run")) (mutator_paths scoped) ≡ true
unfolding mutator_paths render_slug concrete_path teq
paths_concrete = refl

two_distinct : (a b : Text) → teq a b ≡ false → AreDistinct (a ∷ b ∷ [])
two_distinct a b h p = elim (Bool-cases (teq p a)) [
  | inl same ↦
      let apart : teq p b ≡ false = ap (λ t. teq t b) (teq→eq p a same) ∙ h in
      ground (arith, apart, same)
  | inr other ↦ ground (arith, other)
]

paths_distinct : AreDistinct (mutator_paths scoped)
unfolding teq mutator_paths
paths_distinct = two_distinct (codes "src/a.py") (codes "src/b.py") refl

validate_partition_slices-partition_example :
    (validate_partition_slices (codes "run") (map raw_of scoped_slices)).errors ≡ []
validate_partition_slices-partition_example =
    validate_partition_slices-partition (codes "run") 2 scoped scoped_slices (omega arith)
      scoped_partition paths_rejoin paths_concrete paths_distinct

constitution_clean : lint_constitution constitution_contract ≡ []
unfolding lint_constitution
constitution_clean = refl

abbrev roles : List Role
roles =
    record {
      id = codes "planner";
      reads = [];
      writes = codes "docs/plans/<slug>-plan.md" ∷ [];
      skills = [];
      is_mutator = false;
    }
    ∷ []

run_gate-passes_example : (run_gate (codes "run") [] [] roles two_slices).passes ≡ (
    true
    && (true
        && (not (is_empty roles)
            && is_new_each [] (role_contracts (codes "run") (role_contracts (codes "run") roles))
            && is_empty (validate_partition_slices (codes "run") two_slices).errors)))
run_gate-passes_example = run_gate-passes (codes "run") [] [] roles two_slices

passes : (run_gate (codes "run") [] [] roles two_slices).passes ≡ true
unfolding run_gate
passes = refl

no_roles : (run_gate (codes "run") [] [] [] two_slices).passes ≡ false
unfolding run_gate
no_roles = refl

abbrev one : Items
one = some (some (codes "docs/plan.md") ∷ [])

abbrev planner : ProfileRole
planner = record {
  id = some (codes "planner");
  reads = one;
  writes = one;
  skills = some [];
  instructions = one;
  deps = some [];
  is_mutator = false;
}

abbrev file_with : List (Option ProfileRole) → ProfileFile
file_with profile_roles = profile (record {
  schema = some (codes "ao-operator/profile/v1");
  roles = some profile_roles;
  policy_posture = absent;
})

profile_valid : validate_profile (file_with (some planner ∷ [])) ≡ []
unfolding validate_profile
profile_valid = refl

twice : validate_profile (file_with (some planner ∷ some planner ∷ [])) ≡ role_duplicate 2 ∷ []
unfolding validate_profile
twice = refl

run_gate-profile_example :
    (run_gate (codes "run") [] [] (roles_of (file_with (some planner ∷ []))) two_slices).passes
    ≡ (true && is_empty (validate_partition_slices (codes "run") two_slices).errors)
run_gate-profile_example =
    run_gate-profile (codes "run") [] (file_with (some planner ∷ [])) two_slices refl profile_valid
