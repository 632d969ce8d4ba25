-- ===== src/Partition/Defs.antt =====
-- scripts/auto_partition.py. The cap `MAX_SLICES` is an argument: a number at least 0, since a
-- negative setting is outside of the model.
use ao_operator.Base.{
  ℕ, zero, suc, ◌+◌, ◌%◌, Bool, not, ◌||◌, Option, none, some, List, [], ◌∷◌, ◌++◌, filter, length,
  min,
}
use ao_operator.Text.{Text, codes, starts_with, decimal}

unfoldable pub is_metadata_path : Text → Bool
unfolding starts_with
is_metadata_path path =
    starts_with (codes "run-artifacts/") path
    || starts_with (codes "docs/evaluations/") path
    || starts_with (codes "docs/plans/") path

pub record Slice : Type 0 where
  pub slice_id : ℕ
  pub id : Text
  pub reads : List Text
  pub writes : List Text
  pub verification : List Text
  pub merge_owner : Text
  pub rejoin_artifact : Text

unfoldable pub slice_contract : ℕ → List Text → Slice
unfolding decimal
slice_contract slice_id writes = record {
  slice_id = slice_id;
  id = codes "slice-" ++ decimal slice_id;
  reads = codes "docs/specs/<slug>-spec.md" ∷ codes "docs/plans/<slug>-plan.md" ∷ [];
  writes = writes;
  verification = codes "run the narrow verification listed in the accepted plan" ∷ [];
  merge_owner = codes "integrator";
  rejoin_artifact = codes "run-artifacts/<slug>/roles/integrator.md";
}

-- `[slice_contract(i + 1) for i in range(n)]`, from the index `i` on
unfoldable pub contracts_from : ℕ → ℕ → List Slice
unfolding slice_contract
contracts_from i zero = []
contracts_from i (suc n) = slice_contract (i + 1) [] ∷ contracts_from (i + 1) n

-- `slices[i]["writes"].append(path)`
unfoldable pub append_write : ℕ → Text → List Slice → List Slice
append_write i path [] = []
append_write zero path (s ∷ slices) = record s { writes = s.writes ++ path ∷ [] } ∷ slices
append_write (suc i) path (s ∷ slices) = s ∷ append_write i path slices

-- The loop over `enumerate(mutator_paths)`, from an index on.
unfoldable pub distribute : ℕ → ℕ → List Text → List Slice → List Slice
unfolding append_write
distribute n index [] slices = slices
distribute n index (path ∷ paths) slices =
    distribute n (index + 1) paths (append_write (index % n) path slices)

unfoldable pub mutator_paths : List Text → List Text
unfolding is_metadata_path
mutator_paths scoped_writes = filter (λ p. not (is_metadata_path p)) scoped_writes

-- `none`: the division by zero of `index % n` under a cap of 0.
abbrev pub spread : ℕ → List Text → Option (List Slice)
spread zero paths = none
spread (suc n) paths = some (distribute (suc n) 0 paths (contracts_from 0 (suc n)))

abbrev pub partition_paths : ℕ → List Text → Option (List Slice)
partition_paths cap [] = some (slice_contract 1 [] ∷ [])
partition_paths cap (p ∷ paths) = spread (min (length (p ∷ paths)) cap) (p ∷ paths)

unfoldable pub partition : ℕ → List Text → Option (List Slice)
unfolding mutator_paths contracts_from distribute
partition cap scoped_writes = partition_paths cap (mutator_paths scoped_writes)
