-- ===== src/GateB/Contracts.antt =====
-- The shape of the slices that scripts/auto_partition.py makes, as scripts/gate_b.py reads them.
use ao_operator.Base.{
  ℕ, zero, suc, ◌+◌, ◌%◌, ◌≡◌, refl, ap, Bool, true, false, not, ◌&&◌, Option, none, some, List, [],
  ◌∷◌, ◌++◌, all, length, min, arith,
}
use mathlib.Core.Path.{subst}
use ao_operator.Base.Empty.{is_empty}
use ao_operator.Text.{Text, codes, teq}
use ao_operator.Partition.{
  Slice, slice_contract, contracts_from, append_write, distribute, partition_paths, spread,
}
use ao_operator.GateB.Paths.{concrete_path, render_slug}

-- A path that Gate B reads as it stands.
abbrev pub is_concrete : Text → Text → Bool
is_concrete slug p = not (is_empty p) && teq (concrete_path (render_slug slug p)) p

abbrev pub rejoin : Text
rejoin = codes "run-artifacts/<slug>/roles/integrator.md"

-- What every slice of a partition has, apart from its number.
pub record IsContract (slug : Text) (s : Slice) : Type 0 where
  pub id : is_empty s.id ≡ false
  pub reads : s.reads ≡ codes "docs/specs/<slug>-spec.md" ∷ codes "docs/plans/<slug>-plan.md" ∷ []
  pub verification :
      s.verification ≡ codes "run the narrow verification listed in the accepted plan" ∷ []
  pub merge_owner : s.merge_owner ≡ codes "integrator"
  pub rejoin_artifact : s.rejoin_artifact ≡ rejoin
  pub concrete : all (is_concrete slug) s.writes ≡ true

abbrev pub AreContracts : Text → List Slice → Type 0
AreContracts slug [] = Unit
AreContracts slug (s ∷ slices) = IsContract slug s × AreContracts slug slices

all-append {ℓ} :
    {A : Type ℓ} (p : A → Bool) (xs ys : List A) → all p (xs ++ ys) ≡ (all p xs && all p ys)
all-append p [] ys = refl
all-append p (x ∷ xs) ys = ground (arith, all-append p xs ys)

slice_contract-IsContract : (slug : Text) (i : ℕ) → IsContract slug (slice_contract i [])
unfolding slice_contract
slice_contract-IsContract slug i = record {
  id = refl;
  reads = refl;
  verification = refl;
  merge_owner = refl;
  rejoin_artifact = refl;
  concrete = refl;
}

contracts_from-AreContracts : (slug : Text) (i n : ℕ) → AreContracts slug (contracts_from i n)
unfolding contracts_from
contracts_from-AreContracts slug i zero = tt
contracts_from-AreContracts slug i (suc n) =
    (slice_contract-IsContract slug (i + 1), contracts_from-AreContracts slug (i + 1) n)

append_write-AreContracts :
    (slug : Text) (i : ℕ) (p : Text) (slices : List Slice)
    → is_concrete slug p ≡ true
    → AreContracts slug slices
    → AreContracts slug (append_write i p slices)
unfolding append_write
append_write-AreContracts slug i p [] g h = tt
append_write-AreContracts slug zero p (s ∷ slices) g (h, rest) = (
  record {
    id = h.id;
    reads = h.reads;
    verification = h.verification;
    merge_owner = h.merge_owner;
    rejoin_artifact = h.rejoin_artifact;
    concrete = ground (arith, g, h.concrete, all-append (is_concrete slug) s.writes (p ∷ []));
  },
  rest,
)
append_write-AreContracts slug (suc i) p (s ∷ slices) g (h, rest) =
    (h, append_write-AreContracts slug i p slices g rest)

distribute-AreContracts :
    (slug : Text) (n index : ℕ) (paths : List Text) (slices : List Slice)
    → all (is_concrete slug) paths ≡ true
    → AreContracts slug slices
    → AreContracts slug (distribute n index paths slices)
unfolding distribute
distribute-AreContracts slug n index [] slices g h = h
distribute-AreContracts slug n index (p ∷ paths) slices g h =
    let here : is_concrete slug p ≡ true = ground (arith, g) in
    let there : all (is_concrete slug) paths ≡ true = ground (arith, g) in
    distribute-AreContracts slug n (index + 1) paths _ there
      (append_write-AreContracts slug (index % n) p slices here h)

abbrev pub slices_or : List Slice → Option (List Slice) → List Slice
slices_or l none = l
slices_or l (some slices) = slices

spread-AreContracts :
    (slug : Text) (n : ℕ) (paths : List Text) (slices : List Slice)
    → spread n paths ≡ some slices
    → all (is_concrete slug) paths ≡ true
    → AreContracts slug slices
spread-AreContracts slug zero paths slices h g = absurd (ground arith)
spread-AreContracts slug (suc n) paths slices h g =
    subst (AreContracts slug) (ap (slices_or []) h) (
      distribute-AreContracts slug (suc n) 0 paths _ g (contracts_from-AreContracts slug 0 (suc n)))

pub partition_paths-AreContracts :
    (slug : Text) (cap : ℕ) (paths : List Text) (slices : List Slice)
    → partition_paths cap paths ≡ some slices
    → all (is_concrete slug) paths ≡ true
    → AreContracts slug slices
partition_paths-AreContracts slug cap [] slices h g =
    subst (AreContracts slug) (ap (slices_or []) h) (slice_contract-IsContract slug 1, tt)
partition_paths-AreContracts slug cap (p ∷ paths) slices h g =
    spread-AreContracts slug (min (length (p ∷ paths)) cap) (p ∷ paths) slices h g
