-- ===== src/GateB/Owners.antt =====
-- Gate B gives each written path to one slice id.
use ao_operator.Base.{
  ℕ, ◌+◌, ◌≡◌, refl, ap, ◌∙◌, Bool, true, false, Option, none, some, List, [], ◌∷◌, ◌++◌,
  if◌then◌else◌, all, arith, Bool-cases, inl, inr,
}
use ao_operator.Base.Empty.{is_empty}
use ao_operator.Text.{Text, teq, teq→eq, teq_refl, teq_iff}
use ao_operator.Dict.{Dict, get, get-set}
use ao_operator.GateB.Paths.{concrete_path, normalize_slice_list}
use ao_operator.GateB.Slices.{
  RawSlice, NormalSlice, slice_id_of, is_taken, owner_after, write_errors, claim_writes,
  validate_from, validate_partition_slices, normal_slice, field_errors,
}

abbrev pub owned_by : Text → Option Text → Bool
owned_by id none = false
owned_by id (some previous) = teq previous id

-- The path is written by a slice of the id only.
abbrev pub is_owned : Dict Text → Text → Text → Bool
is_owned owner id path = owned_by id (get path owner)

pub append-nil_parts {ℓ} : {A : Type ℓ} (xs ys : List A) → xs ++ ys ≡ [] → (xs ≡ []) × (ys ≡ [])
append-nil_parts [] ys h = (refl, h)
append-nil_parts (x ∷ xs) ys h = absurd (ground arith)

slice_id_of-given : (index : ℕ) (item : RawSlice) → is_empty (slice_id_of index item) ≡ false
unfolding slice_id_of
slice_id_of-given index item = ground arith

not_taken :
    (slice_id raw path : Text) (o : Option Text)
    → write_errors slice_id raw path o ≡ []
    → (is_empty path ≡ false) × (is_taken slice_id o ≡ false)
not_taken slice_id raw path o e = (ground arith, ground arith)

same_owner :
    (slice_id id : Text) (o : Option Text)
    → is_empty id ≡ false
    → is_taken slice_id o ≡ false
    → owned_by id o ≡ true
    → teq slice_id id ≡ true
same_owner slice_id id none n free h = absurd (ground arith)
same_owner slice_id id (some previous) n free h =
    let e : previous ≡ id = teq→eq previous id h in
    ground (arith, e, ap is_empty e, teq_iff previous slice_id, teq_iff slice_id id)

all-unless {ℓ} :
    {A : Type ℓ} (p : A → Bool) (b : Bool) (x : A) (l : List A)
    → b ≡ false
    → p x ≡ true
    → all p l ≡ true
    → all p (if b then l else x ∷ l) ≡ true
all-unless p b x l h k m = ground arith

owner_after-owned :
    (slice_id raw path : Text) (owner : Dict Text) (id p : Text)
    → is_empty id ≡ false
    → write_errors slice_id raw path (get path owner) ≡ []
    → is_owned owner id p ≡ true
    → is_owned (owner_after slice_id path owner) id p ≡ true
owner_after-owned slice_id raw path owner id p n e h = elim (Bool-cases (teq path p)) [
  | inr other ↦ ground (arith, get-set path p slice_id owner)
  | inl same ↦
      let free : (is_empty path ≡ false) × (is_taken slice_id (get path owner) ≡ false) =
        not_taken slice_id raw path (get path owner) e in
      let there : owned_by id (get path owner) ≡ true =
        ap (λ q. is_owned owner id q) (teq→eq path p same) ∙ h in
      let mine = same_owner slice_id id (get path owner) n free.1 there in
      rw (free.0, free.1, get-set path p slice_id owner, same) mine
]

-- A claim without an error leaves every path with its owner.
claim_writes_keeps :
    (slice_id : Text) (owner : Dict Text) (writes : List Text) (id p : Text)
    → (claim_writes slice_id owner writes).errors ≡ []
    → is_empty id ≡ false
    → is_owned owner id p ≡ true
    → is_owned (claim_writes slice_id owner writes).owner id p ≡ true
unfolding claim_writes
claim_writes_keeps slice_id owner [] id p e n h = h
claim_writes_keeps slice_id owner (raw ∷ writes) id p e n h =
    let path = concrete_path raw in
    let (here, there) = append-nil_parts (write_errors slice_id raw path (get path owner)) _ e in
    claim_writes_keeps slice_id (owner_after slice_id path owner) writes id p there n
      (owner_after-owned slice_id raw path owner id p n here h)

owner_after-owns :
    (slice_id raw path : Text) (owner : Dict Text)
    → write_errors slice_id raw path (get path owner) ≡ []
    → (is_empty path ≡ false) × (is_owned (owner_after slice_id path owner) slice_id path ≡ true)
owner_after-owns slice_id raw path owner e = (
  ground arith,
  ground (arith, get-set path path slice_id owner, teq_refl path, teq_refl slice_id),
)

-- A claim without an error owns all its paths.
claim_writes_owns :
    (slice_id : Text) (owner : Dict Text) (writes : List Text)
    → (claim_writes slice_id owner writes).errors ≡ []
    → is_empty slice_id ≡ false
    → all
        (is_owned (claim_writes slice_id owner writes).owner slice_id)
        (claim_writes slice_id owner writes).paths
      ≡ true
unfolding claim_writes
claim_writes_owns slice_id owner [] e n = refl
claim_writes_owns slice_id owner (raw ∷ writes) e n =
    let path = concrete_path raw in
    let (here, there) = append-nil_parts (write_errors slice_id raw path (get path owner)) _ e in
    let (some_path, owned) = owner_after-owns slice_id raw path owner here in
    let next = owner_after slice_id path owner in
    let rest = claim_writes slice_id next writes in
    all-unless (is_owned rest.owner slice_id) (is_empty path) path rest.paths some_path
      (claim_writes_keeps slice_id next writes slice_id path there n owned)
      (claim_writes_owns slice_id next writes there n)

-- The owners at the end of the loop.
unfoldable owners_of : Text → ℕ → Dict Text → List RawSlice → Dict Text
owners_of slug index owner [] = owner
owners_of slug index owner (item ∷ items) =
    owners_of slug (index + 1)
      (claim_writes (slice_id_of index item) owner (normalize_slice_list slug item.writes)).owner
      items

module _ (slug : Text) where
  from_parts :
      (index : ℕ) (owner : Dict Text) (item : RawSlice) (items : List RawSlice)
      → (validate_from slug index owner (item ∷ items)).errors ≡ []
      → ((claim_writes
            (slice_id_of index item)
            owner
            (normalize_slice_list slug item.writes)).errors
          ≡ [])
        × ((validate_from slug
              (index + 1)
              (claim_writes
                (slice_id_of index item)
                owner
                (normalize_slice_list slug item.writes)).owner
              items).errors
            ≡ [])
  unfolding validate_from
  from_parts index owner item items h =
      append-nil_parts _ _ (append-nil_parts (field_errors slug index item) _ h).1

  owners_of_keeps :
      (index : ℕ) (owner : Dict Text) (items : List RawSlice) (id p : Text)
      → (validate_from slug index owner items).errors ≡ []
      → is_empty id ≡ false
      → is_owned owner id p ≡ true
      → is_owned (owners_of slug index owner items) id p ≡ true
  unfolding owners_of
  owners_of_keeps index owner [] id p e n h = h
  owners_of_keeps index owner (item ∷ items) id p e n h =
      let (here, there) = from_parts index owner item items e in
      owners_of_keeps (index + 1) _ items id p there n (
        claim_writes_keeps (slice_id_of index item) owner (normalize_slice_list slug item.writes) id
          p here n h)

  owners_all :
      (index : ℕ) (owner : Dict Text) (items : List RawSlice) (id : Text) (paths : List Text)
      → (validate_from slug index owner items).errors ≡ []
      → is_empty id ≡ false
      → all (is_owned owner id) paths ≡ true
      → all (is_owned (owners_of slug index owner items) id) paths ≡ true
  owners_all index owner items id [] e n h = refl
  owners_all index owner items id (p ∷ paths) e n h =
      let here : is_owned owner id p ≡ true = ground (arith, h) in
      let there : all (is_owned owner id) paths ≡ true = ground (arith, h) in
      ground (
        arith,
        owners_of_keeps index owner items id p e n here,
        owners_all index owner items id paths e n there,
      )

  -- The slice writes nothing but paths that are assigned to its id.
  abbrev pub writes_owned : Dict Text → NormalSlice → Bool
  writes_owned owner s = all (is_owned owner s.id) s.writes

  validate_from-owned :
      (index : ℕ) (owner : Dict Text) (items : List RawSlice)
      → (validate_from slug index owner items).errors ≡ []
      → all
          (writes_owned (owners_of slug index owner items))
          (validate_from slug index owner items).slices
        ≡ true
  unfolding validate_from owners_of normal_slice
  validate_from-owned index owner [] e = refl
  validate_from-owned index owner (item ∷ items) e =
      let (here, there) = from_parts index owner item items (unfold validate_from in e) in
      let id = slice_id_of index item in
      let claimed = claim_writes id owner (normalize_slice_list slug item.writes) in
      let n = slice_id_of-given index item in
      ground (
        arith,
        owners_all (index + 1) claimed.owner items id claimed.paths there n
            (claim_writes_owns id owner (normalize_slice_list slug item.writes) here n),
        validate_from-owned (index + 1) claimed.owner items there,
      )

-- Where the partition has no error, each path has one slice id that it is assigned to, and every slice
-- writes only paths that are assigned to its own id.
pub validate_partition_slices-owned :
    (slug : Text) (raw_slices : List RawSlice)
    → (validate_partition_slices slug raw_slices).errors ≡ []
    → (owner : Dict Text) × (all
          (writes_owned slug owner)
          (validate_partition_slices slug raw_slices).slices
        ≡ true)
unfolding validate_partition_slices
validate_partition_slices-owned slug raw_slices h =
    (owners_of slug 1 [] raw_slices, validate_from-owned slug 1 [] raw_slices h)
