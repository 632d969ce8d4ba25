-- ===== src/GateB/Fanout.antt =====
-- The slices that scripts/auto_partition.py makes pass the check that scripts/gate_b.py makes of them.
use ao_operator.Base.{
  ℕ, ◌+◌, ◌<◌, ◌≤◌, ◌≡◌, refl, sym, ap, ◌∙◌, Bool, true, false, not, some, List, [], ◌∷◌,
  if◌then◌else◌, all, map, count, is_some, arith,
}
use mathlib.Core.Path.{subst}
use ao_operator.Base.Empty.{is_empty}
use ao_operator.Text.{Text, decimal, codes, teq, teq→eq, teq_refl, teq_iff}
use ao_operator.Dict.{Dict, get, set, get-set}
use ao_operator.Partition.{Slice, mutator_paths, partition, owners, partition_lem}
use ao_operator.GateB.Contracts.{
  is_concrete, rejoin, IsContract, AreContracts, slices_or, partition_paths-AreContracts,
}
use ao_operator.GateB.Paths.{concrete_path, render_slug, texts_of, normalize_slice_list}
use ao_operator.GateB.Slices.{
  RawSlice, slice_id_of, owner_after, write_errors, claim_writes, validate_from,
  validate_partition_slices, field_errors,
}

-- A slice of the partition as Gate B reads it from JSON.
abbrev pub raw_of : Slice → RawSlice
raw_of s = record {
  id = some s.id;
  slice_id = some (decimal s.slice_id);
  reads = some (map (λ t. some t) s.reads);
  writes = some (map (λ t. some t) s.writes);
  verification = some (map (λ t. some t) s.verification);
  merge_owner = some s.merge_owner;
  rejoin_artifact = some s.rejoin_artifact;
}

-- 1 if a path has an owner.
abbrev owned_once : Text → Dict Text → ℕ
owned_once p owner = if is_some (get p owner) then 1 else 0

texts_of-map :
    (slug : Text) (ws : List Text)
    → all (is_concrete slug) ws ≡ true
    → texts_of slug (map (λ t. some t) ws) ≡ map (render_slug slug) ws
unfolding texts_of
texts_of-map slug [] h = refl
texts_of-map slug ([] ∷ ws) h = absurd (ground arith)
texts_of-map slug ((c ∷ w) ∷ ws) h =
    ap (λ l. render_slug slug (c ∷ w) ∷ l) (texts_of-map slug ws (ground (arith, h)))

-- A first claim of a path makes no error, and owns the path.
claim_first :
    (slice_id raw path : Text) (owner : Dict Text)
    → is_empty path ≡ false
    → owned_once path owner ≡ 0
    → (write_errors slice_id raw path (get path owner) ≡ [])
      × (owner_after slice_id path owner ≡ set path slice_id owner)
claim_first slice_id raw path owner n h = (ground (arith, n, h), ground (arith, n, h))

owned_once-set :
    (p path slice_id : Text) (owner : Dict Text)
    → owned_once p (set path slice_id owner) ≤ owned_once p owner + (if teq p path then 1 else 0)
owned_once-set p path slice_id owner =
    ground (arith, get-set path p slice_id owner, teq_iff path p, teq_iff p path)

module _ (slug slice_id : Text) where
  claim_writes-nil :
      (owner : Dict Text) (ws : List Text)
      → all (is_concrete slug) ws ≡ true
      → ((p : Text) → owned_once p owner + count (teq p) ws ≤ 1)
      → ((claim_writes slice_id owner (map (render_slug slug) ws)).errors ≡ [])
        × ((p : Text)
            → owned_once p (claim_writes slice_id owner (map (render_slug slug) ws)).owner
              ≤ owned_once p owner + count (teq p) ws)
  unfolding claim_writes
  claim_writes-nil owner [] g h = (refl, λ p. omega arith)
  claim_writes-nil owner (w ∷ ws) g h =
      let raw = render_slug slug w in
      let path = concrete_path raw in
      let same : path ≡ w = teq→eq path w (ground (arith, g)) in
      let some_path : is_empty path ≡ false = ap is_empty same ∙ ground (arith, g) in
      let there : all (is_concrete slug) ws ≡ true = ground (arith, g) in
      let free : owned_once path owner ≡ 0 =
        ground (arith, h path, ap (λ q. teq path q) same, teq_refl path) in
      let (no_error, next) = claim_first slice_id raw path owner some_path free in
      let (nil, owned) =
        claim_writes-nil (set path slice_id owner) ws there
          (λ p. ground (arith, h p, owned_once-set p path slice_id owner, ap (teq p) same)) in
      (
        rw (no_error, next) nil,
        λ p.
            subst
              (λ d.
                owned_once p (claim_writes slice_id d (map (render_slug slug) ws)).owner
                ≤ owned_once p owner + count (teq p) (w ∷ ws))
              (sym next)
              (ground (arith, owned p, owned_once-set p path slice_id owner, ap (teq p) same)),
      )

-- The rejoin artifact is a path, once it has the slug.
abbrev pub rejoins : Text → Bool
rejoins slug = not (is_empty (concrete_path (render_slug slug rejoin)))

from_not : (b : Bool) → not b ≡ true → b ≡ false
from_not true h = absurd (ground arith)
from_not false h = refl

reads_given :
    (slug : Text)
    → is_empty (
        normalize_slice_list slug (
          some (
            map
              (λ t. some t)
              (codes "docs/specs/<slug>-spec.md" ∷ codes "docs/plans/<slug>-plan.md" ∷ []))))
      ≡ false
unfolding normalize_slice_list
reads_given slug = refl

verification_given :
    (slug : Text)
    → is_empty (
        normalize_slice_list slug (
          some (
            map
              (λ t. some t)
              (codes "run the narrow verification listed in the accepted plan" ∷ []))))
      ≡ false
unfolding normalize_slice_list
verification_given slug = refl

field_errors-contract :
    (slug : Text) (index : ℕ) (s : Slice)
    → rejoins slug ≡ true
    → IsContract slug s
    → field_errors slug index (raw_of s) ≡ []
unfolding field_errors
field_errors-contract slug index s r h =
    let read : is_empty (normalize_slice_list slug (some (map (λ t. some t) s.reads))) ≡ false =
      ap (λ l. is_empty (normalize_slice_list slug (some (map (λ t. some t) l)))) h.reads
      ∙ reads_given slug in
    let verified : is_empty (normalize_slice_list slug (some (map (λ t. some t) s.verification)))
        ≡ false =
      ap (λ l. is_empty (normalize_slice_list slug (some (map (λ t. some t) l)))) h.verification
      ∙ verification_given slug in
    let owner : is_empty s.merge_owner ≡ false = ap is_empty h.merge_owner in
    let joined : is_empty (concrete_path (render_slug slug s.rejoin_artifact)) ≡ false =
      ap (λ t. is_empty (concrete_path (render_slug slug t))) h.rejoin_artifact ∙ from_not _ r in
    simp (h.id, read, verified, owner, joined) refl

slice_id_of-raw :
    (index : ℕ) (s : Slice) → is_empty s.id ≡ false → slice_id_of index (raw_of s) ≡ s.id
unfolding slice_id_of
slice_id_of-raw index s h = rw h refl

module _ (slug : Text) (r : rejoins slug ≡ true) where
  validate_from-nil :
      (index : ℕ) (owner : Dict Text) (slices : List Slice)
      → AreContracts slug slices
      → ((p : Text) → owned_once p owner + owners p slices ≤ 1)
      → (validate_from slug index owner (map raw_of slices)).errors ≡ []
  unfolding validate_from
  validate_from-nil index owner [] c h = refl
  validate_from-nil index owner (s ∷ slices) (c, cs) h =
      let raw = normalize_slice_list slug (some (map (λ t. some t) s.writes)) in
      let id = slice_id_of index (raw_of s) in
      let texts : raw ≡ map (render_slug slug) s.writes =
        unfold normalize_slice_list in texts_of-map slug s.writes c.concrete in
      let (nil, owned) =
        claim_writes-nil slug id owner s.writes c.concrete (λ p. omega (arith, h p)) in
      rw (field_errors-contract slug index s r c, texts, nil)
        (validate_from-nil (index + 1)
          (claim_writes id owner (map (render_slug slug) s.writes)).owner slices cs
          λ p. omega (arith, owned p, h p))

-- No path twice.
abbrev pub AreDistinct : List Text → Type 0
AreDistinct paths = (p : Text) → count (teq p) paths ≤ 1

-- The slices of a partition pass Gate B without an error, for distinct paths that Gate B reads as they
-- stand, a cap above 0, and a slug with which the rejoin artifact is a path.
pub validate_partition_slices-partition :
    (slug : Text) (cap : ℕ) (scoped_writes : List Text) (slices : List Slice)
    → 0 < cap
    → partition cap scoped_writes ≡ some slices
    → rejoins slug ≡ true
    → all (is_concrete slug) (mutator_paths scoped_writes) ≡ true
    → AreDistinct (mutator_paths scoped_writes)
    → (validate_partition_slices slug (map raw_of slices)).errors ≡ []
unfolding validate_partition_slices
validate_partition_slices-partition slug cap scoped_writes slices k h r g d =
    let (made, e, splits) = partition_lem cap scoped_writes k in
    let same : made ≡ slices = ap (slices_or []) (sym e ∙ h) in
    validate_from-nil slug r 1 [] slices
      (partition_paths-AreContracts slug cap (mutator_paths scoped_writes) slices
        (unfold partition in h) g)
      λ p. omega (arith, d p, splits.owned p, ap (owners p) same)
