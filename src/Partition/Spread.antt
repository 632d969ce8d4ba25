-- ===== src/Partition/Spread.antt =====
-- The partition of scripts/auto_partition.py keeps every mutator path, and adds none.
use ao_operator.Base.{
  ℕ, zero, suc, ◌+◌, ◌%◌, ◌<◌, ◌≡◌, refl, ap, some, List, [], ◌∷◌, if◌then◌else◌, length, min, max,
  ◌∙◌, count, count-append, arith,
}
use ao_operator.Text.{Text, teq}
use ao_operator.Partition.Defs.{
  Slice, slice_contract, contracts_from, append_write, distribute, spread, mutator_paths,
  partition_paths, partition,
}

-- How often a path stands among the writes of the slices.
abbrev pub owners : Text → List Slice → ℕ
owners path [] = 0
owners path (s ∷ slices) = count (teq path) s.writes + owners path slices

length-append_write :
    (i : ℕ) (p : Text) (slices : List Slice) → length (append_write i p slices) ≡ length slices
unfolding append_write
length-append_write i p [] = refl
length-append_write zero p (s ∷ slices) = refl
length-append_write (suc i) p (s ∷ slices) = ap suc (length-append_write i p slices)

owners-append_write :
    (path : Text) (i : ℕ) (p : Text) (slices : List Slice)
    → i < length slices
    → owners path (append_write i p slices) ≡ owners path slices + (if teq path p then 1 else 0)
unfolding append_write
owners-append_write path i p [] h = absurd (omega arith)
owners-append_write path zero p (s ∷ slices) h =
    omega (arith, count-append (teq path) s.writes (p ∷ []))
owners-append_write path (suc i) p (s ∷ slices) h =
    omega (arith, owners-append_write path i p slices (omega arith))

distribute_keeps :
    (path : Text) (n index : ℕ) (paths : List Text) (slices : List Slice)
    → length slices ≡ n
    → 0 < n
    → (length (distribute n index paths slices) ≡ n)
      × (owners path (distribute n index paths slices)
          ≡ owners path slices + count (teq path) paths)
unfolding distribute
distribute_keeps path n index [] slices h k = (h, omega arith)
distribute_keeps path n index (p ∷ paths) slices h k =
    let i : index % n < length slices = grind arith in
    let (len, own) =
      distribute_keeps path n (index + 1) paths (append_write (index % n) p slices)
        (length-append_write (index % n) p slices ∙ h) k in
    (len, omega (arith, own, owners-append_write path (index % n) p slices i))

contracts_from_lem :
    (path : Text) (i n : ℕ)
    → (length (contracts_from i n) ≡ n) × (owners path (contracts_from i n) ≡ 0)
unfolding contracts_from
contracts_from_lem path i zero = (refl, refl)
contracts_from_lem path i (suc n) =
    let (len, own) = contracts_from_lem path (i + 1) n in (ap suc len, omega (arith, own))

-- What a partition promises of the paths it is given.
pub record Splits (cap : ℕ) (paths : List Text) (slices : List Slice) : Type 0 where
  pub sized : length slices ≡ max 1 (min (length paths) cap)
  pub owned : (path : Text) → owners path slices ≡ count (teq path) paths

Splits-pos :
    (n cap : ℕ) (paths : List Text)
    → min (length paths) cap ≡ suc n
    → Splits cap paths (distribute (suc n) 0 paths (contracts_from 0 (suc n)))
Splits-pos n cap paths e =
    let len = (contracts_from_lem [] 0 (suc n)).0 in
    record {
      sized = omega (
        arith,
        (distribute_keeps [] (suc n) 0 paths (contracts_from 0 (suc n)) len (omega arith)).0,
      );
      owned = λ path. omega (
        arith,
        (distribute_keeps path (suc n) 0 paths (contracts_from 0 (suc n)) len (omega arith)).1,
        (contracts_from_lem path 0 (suc n)).1,
      );
    }

spread_lem :
    (n cap : ℕ) (paths : List Text)
    → 0 < n
    → min (length paths) cap ≡ n
    → (slices : List Slice) × (spread n paths ≡ some slices) × Splits cap paths slices
spread_lem zero cap paths h e = absurd (omega arith)
spread_lem (suc n) cap paths h e = (_, refl, Splits-pos n cap paths e)

-- Under a cap above 0 the partition is made: it has a slice for each mutator path up to the cap, and
-- one at least; and each path is written by the slices as often as it stands among the scoped paths
-- that are no metadata: no path is lost, doubled or made up.
pub partition_lem :
    (cap : ℕ) (scoped_writes : List Text)
    → 0 < cap
    → (slices : List Slice) × (partition cap scoped_writes ≡ some slices)
      × Splits cap (mutator_paths scoped_writes) slices
unfolding partition
partition_lem cap scoped_writes h = go (mutator_paths scoped_writes)
  where
    go :
        (paths : List Text)
        → (slices : List Slice) × (partition_paths cap paths ≡ some slices)
          × Splits cap paths slices
    go [] = (
      slice_contract 1 [] ∷ [],
      refl,
      record { sized = omega arith; owned = λ path. unfold slice_contract in refl },
    )
    go (p ∷ paths) = spread_lem (min (length (p ∷ paths)) cap) cap (p ∷ paths) (omega arith) refl
