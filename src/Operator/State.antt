-- ===== src/Operator/State.antt =====
-- `summarize` of scripts/summarize_50_slice_operator_state.py, and `approval_file_ok` of
-- scripts/run_50_slice_live.py. The evidence is what was read from the JSON files: a verdict or route
-- that is missing or no text is none, and so is an approval file that cannot be read. The verdict of
-- check_live_acceptance.check_slug is a part of the evidence. Commands, paths and times are left out.
use ao_operator.Base.{
  ℕ, Bool, true, false, not, ◌&&◌, ◌||◌, Option, none, some, List, [], ◌∷◌, ◌++◌, ◌==◌,
  if◌then◌else◌, all,
}
use ao_operator.Text.{Text, codes, teq, strip, is_space}

-- `approved` is whether the field equals True.
pub record Approval : Type 0 where
  pub approved : Bool
  pub target_slices : ℕ
  pub target_tasks : ℕ
  pub approval_env : Text
  pub approved_by : Text

pub record Evidence : Type 0 where
  pub prep_report : Option Text
  pub provider_budget : Option Text
  pub approval_gate : Option Text
  pub rehearsal : Option Text
  pub postrun_route : Option Text
  pub route : Option Text
  pub acceptance_verdict : Option Text
  pub commit_success_evidence_allowed : Bool
  pub accepted_25_live : Option Text

pub data Message : Type 0 where
  unavailable must_include_approved_by accepted : Message
  must_contain : Text → Message

pub data Blocker : Type 0 where
  prep_missing budget_missing gate_missing rehearsal_missing postrun_missing live_not_pass : Blocker
  approval : Message → Blocker

pub record Summary : Type 0 where
  pub passes : Bool
  pub current_state : Text
  pub approved : Bool
  pub approval_message : Message
  pub dispatch_authorized : Bool
  pub route : Text
  pub blockers : List Blocker

abbrev pub approval_env_name : Text
approval_env_name = codes "FACTORY_V3_ALLOW_LARGE_LIVE_RUN"

-- `str(x or "").strip()` is empty.
unfoldable pub is_blank : Text → Bool
unfolding strip is_space
is_blank t = elim (strip is_space t) [ [] ↦ true | c ∷ s ↦ false ]

unfoldable pub approval_file_ok : Option Approval → Bool × Message
unfolding teq is_blank
approval_file_ok none = (false, unavailable)
approval_file_ok (some a) =
    if not a.approved
    then (false, must_contain (codes "approved"))
    else if not (a.target_slices == 50)
    then (false, must_contain (codes "target_slices"))
    else if not (a.target_tasks == 107)
    then (false, must_contain (codes "target_tasks"))
    else if not (teq a.approval_env approval_env_name)
    then (false, must_contain (codes "approval_env"))
    else if is_blank a.approved_by
    then (false, must_include_approved_by)
    else (true, accepted)

unfoldable pub pass_verdict : Option Text → Bool
unfolding teq
pass_verdict none = false
pass_verdict (some v) = teq v (codes "PASS")

abbrev pub unless : Bool → Blocker → List Blocker
unless true b = []
unless false b = b ∷ []

unfoldable pub blockers_of : Evidence → Bool × Message → List Blocker
unfolding pass_verdict
blockers_of e (approved, message) =
    unless (pass_verdict e.prep_report) prep_missing
    ++ (unless (pass_verdict e.provider_budget) budget_missing
        ++ (unless (pass_verdict e.approval_gate) gate_missing
            ++ (unless (pass_verdict e.rehearsal) rehearsal_missing
                ++ (unless (pass_verdict e.postrun_route) postrun_missing
                    ++ (unless (pass_verdict e.accepted_25_live) live_not_pass
                        ++ unless approved (approval message))))))

-- `blockers[-1:]`
unfoldable pub last_blockers : List Blocker → List Blocker
last_blockers [] = []
last_blockers (b ∷ []) = b ∷ []
last_blockers (b ∷ c ∷ bs) = last_blockers (c ∷ bs)

-- `"approval file" in item`, which all messages of `approval_file_ok` contain, and no other blocker.
abbrev pub is_approval : Blocker → Bool
is_approval (approval m) = true
is_approval _ = false

abbrev pub is_empty : List Blocker → Bool
is_empty [] = true
is_empty (b ∷ bs) = false

-- `str(postrun.get("route") or "UNKNOWN")`
abbrev pub route_of : Option Text → Text
route_of none = codes "UNKNOWN"
route_of (some []) = codes "UNKNOWN"
route_of (some (c ∷ t)) = c ∷ t

unfoldable pub accepted_50_live : Evidence → Bool
unfolding teq pass_verdict
accepted_50_live e =
    teq (route_of e.route) (codes "RUN_50_SLICE_ACCEPTANCE")
    && (pass_verdict e.acceptance_verdict
        && (e.commit_success_evidence_allowed && pass_verdict e.accepted_25_live))

abbrev pub accepted_state : Text
accepted_state = codes "ACCEPTED_50_SLICE_LIVE"

abbrev pub ready_for_approval : Text
ready_for_approval = codes "READY_FOR_APPROVAL_NOT_DISPATCH"

abbrev pub ready_for_live : Text
ready_for_live = codes "READY_FOR_50_SLICE_LIVE"

unfoldable pub state_of : Evidence → Bool → List Blocker → Text
unfolding accepted_50_live last_blockers teq
state_of e approved blockers =
    if accepted_50_live e
    then accepted_state
    else if not (is_empty blockers) && (not approved && all is_approval (last_blockers blockers))
    then ready_for_approval
    else if not (is_empty blockers)
    then codes "BLOCKED"
    else if teq (route_of e.route) (codes "WAIT_FOR_50_SLICE_LIVE_RUN")
    then ready_for_live
    else route_of e.route

unfoldable pub summarize : Evidence → Option Approval → Summary
unfolding approval_file_ok blockers_of state_of teq
summarize e file =
    let checked = approval_file_ok file in
    let blockers = blockers_of e checked in
    let state = state_of e checked.0 blockers in
    record {
      passes =
          teq state ready_for_approval || (teq state ready_for_live || teq state accepted_state);
      current_state = state;
      approved = checked.0;
      approval_message = checked.1;
      dispatch_authorized = checked.0 && teq state ready_for_live;
      route = route_of e.route;
      blockers = blockers;
    }
