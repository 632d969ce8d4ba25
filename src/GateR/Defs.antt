-- ===== src/GateR/Defs.antt =====
-- `run_gate` of scripts/gate_r.py and the check of the slices' fan-in. The tree is what the gate reads of
-- it: the files by their paths, the paths of the role artifacts that are there, and the patch bundles by
-- their task. Only the errors are modelled; the list of checks repeats them with the passed ones.
use ao_operator.Base.{
  ℕ, Bool, true, false, not, ◌&&◌, ◌||◌, Option, none, some, List, [], ◌∷◌, ◌++◌, ◌==◌, leb, ltb,
  if◌then◌else◌, any, map, filter, length, is_some,
}
use ao_operator.Base.Empty.{is_empty}
use ao_operator.Text.{Text, codes, teq, contains, sort_texts}
use ao_operator.Dict.{Dict, get, set}
use ao_operator.GateR.Status.{or_empty, status_result, status_artifact, artifact_is_concrete_path}

-- A slice of the contract; `slice_id` is the text of the number, if there is one.
pub record Handoff : Type 0 where
  pub id : Text
  pub slice_id : Option Text
  pub writes : List Text

-- The report of Gate B, as far as it is read: the two parts of `spec`, and of the report.
pub record GateBReport : Type 0 where
  pub role_artifacts : Option (Dict Text)
  pub spec_roles : Option (List (Text × Option (List Text)))
  pub role_contracts : List Text
  pub spec_slices : Option (List Handoff)
  pub partition_slices : Option (List Handoff)

pub data PatchBundle : Type 0 where
  missing invalid present : PatchBundle

pub record Tree : Type 0 where
  pub file : Text → Option Text
  pub role_files : List Text
  pub patch : Text → PatchBundle

pub data GateError : Type 0 where
  no_role_contracts no_integrator : GateError
  integrator_result : Text → GateError
  missing_output missing_result missing_artifact : Text → GateError
  role_failed : (role result : Text) → GateError
  artifact_drift : (role artifact : Text) → GateError
  unexpected_artifact : Text → GateError
  missing_patch invalid_patch reviewer_result no_writes : (name : Text) → GateError
  disposition : (name : Text) (missing : List Text) → GateError

unfoldable pub role_path : Text → Text → Text
role_path slug id = codes "run-artifacts/" ++ (slug ++ (codes "/roles/" ++ (id ++ codes ".md")))

unfoldable pub outputs_from : Text → Dict Text → List Text → Dict Text
unfolding set role_path
outputs_from slug d [] = d
outputs_from slug d ([] ∷ ids) = outputs_from slug d ids
outputs_from slug d ((c ∷ id) ∷ ids) =
    outputs_from slug (set (c ∷ id) (role_path slug (c ∷ id)) d) ids

unfoldable pub expected_role_artifacts : GateBReport → Text → Dict Text
unfolding outputs_from
expected_role_artifacts gate_b slug = elim gate_b.role_artifacts [
  | some d ↦ filter (λ (e : Text × Text). not (is_empty e.0) && not (is_empty e.1)) d
  | none ↦ outputs_from slug [] gate_b.role_contracts
]

unfoldable pub allowed_from : Dict (List Text) → List (Text × Option (List Text)) → Dict (List Text)
unfolding set
allowed_from d [] = d
allowed_from d ((id, none) ∷ roles) = allowed_from d roles
allowed_from d ((id, some allowed) ∷ roles) =
    allowed_from (if is_empty id then d else set id allowed d) roles

unfoldable pub allowed_artifacts : GateBReport → Text → Dict (List Text)
unfolding allowed_from expected_role_artifacts
allowed_artifacts gate_b slug = elim gate_b.spec_roles [
  | some roles ↦ allowed_from [] roles
  | none ↦ map (λ (e : Text × Text). (e.0, e.1 ∷ [])) (expected_role_artifacts gate_b slug)
]

abbrev pub slices_of : GateBReport → List Handoff
slices_of gate_b = elim gate_b.spec_slices [
  | some slices ↦ slices
  | none ↦ elim gate_b.partition_slices [ none ↦ [] | some slices ↦ slices ]
]

abbrev pub is_digit : ℕ → Bool
is_digit c = leb b'0' c && leb c b'9'

-- `(\d+)$`
unfoldable pub trailing_digits : Text → Text
trailing_digits [] = []
trailing_digits (c ∷ s) =
    let rest = trailing_digits s in if is_digit c && length rest == length s then c ∷ s else rest

abbrev pub number_text : Option Text → Text
number_text none = codes "None"
number_text (some n) = n

unfoldable pub slice_role_id : Text → Handoff → Dict Text → ℕ → Text
unfolding get trailing_digits
slice_role_id base item outputs slice_count =
    let numbered = base ++ (codes "-" ++ number_text item.slice_id) in
    let digits = trailing_digits item.id in
    if is_some item.slice_id && (is_some (get numbered outputs) || ltb 1 slice_count)
    then numbered
    else if is_some (get base outputs)
    then base
    else if not (is_empty digits)
    then base ++ (codes "-" ++ digits)
    else numbered

abbrev pub is_success : Text → Bool
is_success r = any (teq r) (codes "DONE" ∷ codes "DONE_WITH_CONCERNS" ∷ [])

abbrev pub is_failure : Text → Bool
is_failure r = any (teq r) (codes "BLOCKED" ∷ codes "REJECTED" ∷ [])

abbrev pub error_if : Bool → GateError → List GateError
error_if true e = e ∷ []
error_if false e = []

-- `read_role_body`
unfoldable pub body_of : Tree → Text → Text → Text
unfolding role_path
body_of tree slug id = or_empty (tree.file (role_path slug id))

-- `str(item.get("id") or item.get("slice_id") or "slice")`; the number 0 is as good as none.
abbrev pub name_of : Handoff → Text
name_of item = if not (is_empty item.id) then item.id else elim item.slice_id [
  | none ↦ codes "slice"
  | some n ↦ if teq n (codes "0") then codes "slice" else n
]

abbrev pub patch_errors : Text → PatchBundle → List GateError
patch_errors name missing = missing_patch name ∷ []
patch_errors name invalid = invalid_patch name ∷ []
patch_errors name present = []

-- The terms that an integrator has to mention for a slice.
abbrev pub terms_of : Text → Text → Handoff → List Text
terms_of implementer reviewer item = implementer ∷ reviewer ∷ name_of item ∷ item.writes

-- `not text_mentions(text, value)`
unfoldable pub unmentioned : Text → List Text → List Text
unfolding contains
unmentioned text terms = filter (λ t. is_empty t || not (contains t text)) terms

module _ (tree : Tree) (slug : Text) (outputs : Dict Text) (slice_count : ℕ) where
  unfoldable pub slice_errors : Handoff → List GateError
  unfolding slice_role_id body_of status_result unmentioned teq
  slice_errors item =
      let name = name_of item in
      let implementer = slice_role_id (codes "implementer-slice") item outputs slice_count in
      let reviewer = slice_role_id (codes "reviewer-slice") item outputs slice_count in
      let missing =
        unmentioned (body_of tree slug (codes "integrator")) (terms_of implementer reviewer item) in
      patch_errors name (tree.patch implementer)
      ++ (error_if (not (is_success (status_result (body_of tree slug reviewer))))
            (reviewer_result name)
          ++ (elim missing [ [] ↦ [] | t ∷ ts ↦ disposition name (t ∷ ts) ∷ [] ]
              ++ elim item.writes [ [] ↦ no_writes name ∷ [] | w ∷ ws ↦ [] ]))

  unfoldable pub slices_errors : List Handoff → List GateError
  unfolding slice_errors
  slices_errors [] = []
  slices_errors (item ∷ items) = slice_errors item ++ slices_errors items

abbrev pub integrator_errors : Text → Text → List GateError
integrator_errors body result =
    if is_empty body
    then no_integrator ∷ []
    else error_if (not (is_success result)) (integrator_result result)

-- `validate_slice_integrator_contract`
unfoldable pub integrator_contract : Tree → Text → List Handoff → Dict Text → List GateError
unfolding slices_errors body_of status_result teq
integrator_contract tree slug [] outputs = []
integrator_contract tree slug (item ∷ items) outputs =
    let body = body_of tree slug (codes "integrator") in
    integrator_errors body (status_result body)
    ++ slices_errors tree slug outputs (length (item ∷ items)) (item ∷ items)

-- The error of a role whose artifact has been read, by its result and its artifact.
abbrev pub status_errors : Text → List Text → Text → Text → List GateError
status_errors id allowed result artifact =
    if is_empty result
    then missing_result id ∷ []
    else if is_failure result
    then role_failed id result ∷ []
    else if is_empty artifact
    then missing_artifact id ∷ []
    else error_if (artifact_is_concrete_path artifact && not (any (teq artifact) allowed))
        (artifact_drift id artifact)

abbrev pub or_none_allowed : Option (List Text) → List Text
or_none_allowed none = []
or_none_allowed (some l) = l

-- The round of the loop for one output.
unfoldable pub output_errors : Tree → Dict (List Text) → Text × Text → List GateError
unfolding get status_result status_artifact artifact_is_concrete_path teq
output_errors tree allowed_by_role (id, output) = elim (tree.file output) [
  | none ↦ missing_output id ∷ []
  | some body ↦
      status_errors id (or_none_allowed (get id allowed_by_role)) (status_result body)
        (status_artifact body)
]

unfoldable pub outputs_errors : Tree → Dict (List Text) → Dict Text → List GateError
unfolding output_errors
outputs_errors tree allowed [] = []
outputs_errors tree allowed (e ∷ outputs) =
    output_errors tree allowed e ++ outputs_errors tree allowed outputs

-- The role artifacts in the directory that no output names by its role.
unfoldable pub unexpected_errors : Text → Dict Text → List Text → List GateError
unfolding role_path teq
unexpected_errors slug outputs [] = []
unexpected_errors slug outputs (path ∷ paths) =
    let rest = unexpected_errors slug outputs paths in
    if any (λ (e : Text × Text). teq path (role_path slug e.0)) outputs
    then rest
    else unexpected_artifact path ∷ rest

unfoldable pub run_gate : Tree → Text → GateBReport → List GateError
unfolding expected_role_artifacts allowed_artifacts outputs_errors unexpected_errors
    integrator_contract sort_texts
run_gate tree slug gate_b =
    let outputs = expected_role_artifacts gate_b slug in
    elim outputs [ [] ↦ no_role_contracts ∷ [] | e ∷ es ↦ [] ]
    ++ (outputs_errors tree (allowed_artifacts gate_b slug) outputs
        ++ (unexpected_errors slug outputs (sort_texts tree.role_files)
            ++ integrator_contract tree slug (slices_of gate_b) outputs))
