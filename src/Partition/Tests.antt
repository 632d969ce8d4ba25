-- ===== src/Partition/Tests.antt =====
-- The partition on small inputs.
use ao_operator.Base.{◌≡◌, some, List, [], ◌∷◌, arith}
use ao_operator.Text.{Text, codes}
use ao_operator.Partition.Defs.{Slice, partition, mutator_paths}
use ao_operator.Partition.Spread.{Splits, partition_lem}

abbrev writes : List Text
writes = codes "src/a.py" ∷ codes "docs/plans/p.md" ∷ codes "src/b.py" ∷ codes "src/c.py" ∷ []

partition_lem_example :
    (slices : List Slice) × (partition 2 writes ≡ some slices)
    × Splits 2 (mutator_paths writes) slices
partition_lem_example = partition_lem 2 writes (omega arith)
