-- ===== src/GateB/Slices.antt =====
-- `validate_partition_slices` of scripts/gate_b.py. A slice is a JSON object; a field of a wrong type
-- is none. `slice_id` is the text of any value that is there. The messages are constructors.
use ao_operator.Base.{
  ℕ, ◌+◌, Bool, true, false, not, ◌&&◌, ◌||◌, Option, none, some, List, [], ◌∷◌, ◌++◌,
  if◌then◌else◌, is_some,
}
use ao_operator.Base.Empty.{is_empty}
use ao_operator.Text.{Text, codes, teq, decimal}
use ao_operator.Dict.{Dict, get, set}
use ao_operator.GateB.Paths.{concrete_path, render_slug, normalize_slice_list}

pub record RawSlice : Type 0 where
  pub id : Option Text
  pub slice_id : Option Text
  pub reads : Option (List (Option Text))
  pub writes : Option (List (Option Text))
  pub verification : Option (List (Option Text))
  pub merge_owner : Option Text
  pub rejoin_artifact : Option Text

pub data SliceError : Type 0 where
  id_required : ℕ → SliceError
  reads_required writes_not_list verification_required merge_owner_required rejoin_not_concrete :
      Text → SliceError
  write_not_concrete : (slice_id raw : Text) → SliceError
  overlaps : (slice_id path previous : Text) → SliceError

pub record NormalSlice : Type 0 where
  pub id : Text
  pub slice_id : Text
  pub reads : List Text
  pub writes : List Text
  pub verification : List Text
  pub merge_owner : Text
  pub rejoin_artifact : Text

abbrev pub error_if : Bool → SliceError → List SliceError
error_if true e = e ∷ []
error_if false e = []

-- A text that is there and not empty.
abbrev pub given : Option Text → Bool
given none = false
given (some t) = not (is_empty t)

abbrev pub or_empty : Option Text → Text
or_empty none = []
or_empty (some t) = t

abbrev pub text_or : Text → Option Text → Text
text_or t none = t
text_or t (some u) = u

unfoldable pub slice_id_of : ℕ → RawSlice → Text
unfolding decimal
slice_id_of index item = if given item.id then or_empty item.id else codes "slice-" ++ decimal index

-- `previous and previous != slice_id`
abbrev pub is_taken : Text → Option Text → Bool
is_taken slice_id none = false
is_taken slice_id (some previous) = not (is_empty previous) && not (teq previous slice_id)

abbrev pub owner_after : Text → Text → Dict Text → Dict Text
owner_after slice_id path owner =
    if is_empty path || is_taken slice_id (get path owner) then owner else set path slice_id owner

abbrev pub write_errors : Text → Text → Text → Option Text → List SliceError
write_errors slice_id raw path previous =
    if is_empty path
    then write_not_concrete slice_id raw ∷ []
    else error_if (is_taken slice_id previous) (overlaps slice_id path (or_empty previous))

-- What the writes of one slice leave: the owners, the concrete paths, and the errors.
pub record Claimed : Type 0 where
  pub owner : Dict Text
  pub paths : List Text
  pub errors : List SliceError

unfoldable pub claim_writes : Text → Dict Text → List Text → Claimed
unfolding concrete_path get set teq
claim_writes slice_id owner [] = record { owner = owner; paths = []; errors = [] }
claim_writes slice_id owner (raw ∷ writes) =
    let path = concrete_path raw in
    let rest = claim_writes slice_id (owner_after slice_id path owner) writes in
    record rest {
      paths = if is_empty path then rest.paths else path ∷ rest.paths;
      errors = write_errors slice_id raw path (get path owner) ++ rest.errors;
    }

abbrev pub rejoin_of : Text → RawSlice → Text
rejoin_of slug item = render_slug slug (or_empty item.rejoin_artifact)

-- The errors of the fields of a slice, but for its writes' paths.
unfoldable pub field_errors : Text → ℕ → RawSlice → List SliceError
unfolding slice_id_of normalize_slice_list concrete_path render_slug
field_errors slug index item =
    let slice_id = slice_id_of index item in
    error_if (not (given item.id)) (id_required index)
    ++ (error_if (is_empty (normalize_slice_list slug item.reads)) (reads_required slice_id)
        ++ (error_if (not (is_some item.writes)) (writes_not_list slice_id)
            ++ (error_if (is_empty (normalize_slice_list slug item.verification))
                  (verification_required slice_id)
                ++ (error_if (not (given item.merge_owner)) (merge_owner_required slice_id)
                    ++ error_if
                        (not (is_some item.rejoin_artifact)
                          || is_empty (concrete_path (rejoin_of slug item)))
                        (rejoin_not_concrete slice_id)))))

-- The slice as the report has it.
unfoldable pub normal_slice : Text → ℕ → RawSlice → List Text → NormalSlice
unfolding slice_id_of normalize_slice_list concrete_path render_slug decimal
normal_slice slug index item paths = record {
  id = slice_id_of index item;
  slice_id = text_or (decimal index) item.slice_id;
  reads = normalize_slice_list slug item.reads;
  writes = paths;
  verification = normalize_slice_list slug item.verification;
  merge_owner = or_empty item.merge_owner;
  rejoin_artifact =
      if is_empty (concrete_path (rejoin_of slug item)) then [] else rejoin_of slug item;
}

pub record Partition : Type 0 where
  pub slices : List NormalSlice
  pub errors : List SliceError

-- The loop from an index and the owners on.
unfoldable pub validate_from : Text → ℕ → Dict Text → List RawSlice → Partition
unfolding slice_id_of normalize_slice_list claim_writes field_errors normal_slice
validate_from slug index owner [] = record { slices = []; errors = [] }
validate_from slug index owner (item ∷ items) =
    let claimed =
      claim_writes (slice_id_of index item) owner (normalize_slice_list slug item.writes) in
    let rest = validate_from slug (index + 1) claimed.owner items in
    record {
      slices = normal_slice slug index item claimed.paths ∷ rest.slices;
      errors = field_errors slug index item ++ (claimed.errors ++ rest.errors);
    }

unfoldable pub validate_partition_slices : Text → List RawSlice → Partition
unfolding validate_from
validate_partition_slices slug raw_slices = validate_from slug 1 [] raw_slices
