-- ===== src/Roles/Ids.antt =====
-- scripts/factory_run.py: task ids and results, and the tests on ids.
use ao_operator.Base.{Bool, true, false, not, ◌&&◌, ◌||◌, Option, none, some, if◌then◌else◌}
use ao_operator.Text.{Text, codes, teq, starts_with, ends_with}

-- The result that a role reports. The regular expression admits any capitals, so other words occur.
pub data RoleResult : Type 0 where
  done done_with_concerns blocked rejected : RoleResult
  other : Text → RoleResult

-- `SUCCESS_RESULTS` and `FAILED_RESULTS`
unfoldable pub is_success : RoleResult → Bool
is_success done = true
is_success done_with_concerns = true
is_success _ = false

unfoldable pub is_failed : RoleResult → Bool
is_failed blocked = true
is_failed rejected = true
is_failed _ = false

unfoldable pub is_done : RoleResult → Bool
is_done done = true
is_done _ = false

abbrev pub implementer : Text
implementer = codes "implementer-slice"

abbrev pub reviewer : Text
reviewer = codes "reviewer-slice"

abbrev pub implementer_prefix : Text
implementer_prefix = codes "implementer-slice-"

abbrev pub reviewer_prefix : Text
reviewer_prefix = codes "reviewer-slice-"

unfoldable pub is_slice_implementer : Text → Bool
unfolding teq starts_with
is_slice_implementer id = teq id implementer || starts_with implementer_prefix id

unfoldable pub is_slice_reviewer : Text → Bool
unfolding teq starts_with
is_slice_reviewer id = teq id reviewer || starts_with reviewer_prefix id

-- The profile, where one is active, may say of a role whether it mutates.
unfoldable pub is_mutator_task : (Text → Option Bool) → Text → Bool
unfolding is_slice_implementer ends_with
is_mutator_task profile id = elim (profile id) [
  | some b ↦ b
  | none ↦
      is_slice_implementer id
      || ends_with (codes "-factory") id && not (teq id (codes "factory-manager"))
]

unfoldable pub is_load_bearing_result_task : Text → Bool
unfolding is_slice_implementer is_slice_reviewer ends_with
is_load_bearing_result_task id =
    teq id implementer
    || teq id reviewer
    || teq id (codes "integrator")
    || teq id (codes "evaluator-closer")
    || is_slice_implementer id
    || is_slice_reviewer id
    || ends_with (codes "-factory") id
    || ends_with (codes "-reviewer") id

unfoldable pub slice_family : Text → Text
unfolding starts_with
slice_family id =
    if starts_with implementer_prefix id
    then implementer
    else if starts_with reviewer_prefix id
    then reviewer
    else id
