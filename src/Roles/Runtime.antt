-- ===== src/Roles/Runtime.antt =====
-- `runtime_blockers` and `runtime_concerns` of scripts/factory_run.py. The messages are constructors,
-- and the role results are those that the caller parsed from the artifacts.
use ao_operator.Base.{
  ℕ, Bool, true, false, not, ◌&&◌, Option, none, some, List, [], ◌∷◌, ◌++◌, ◌==◌, if◌then◌else◌,
  any, filter, map,
}
use ao_operator.Text.{Text, codes, contains, teq, sort_texts}
use ao_operator.Dict.{Dict, get}
use ao_operator.Roles.Ids.{
  RoleResult, done_with_concerns, is_success, is_failed, is_done, implementer, reviewer,
  is_mutator_task, is_load_bearing_result_task, slice_family,
}
use ao_operator.Roles.Quorum.{aggregated_role_results}

pub record Bundle : Type 0 where
  pub diff_bytes : ℕ
  pub status_captured : Bool

pub data Blocker : Type 0 where
  role_failed status_fallback : Blocker
  no_bundle empty_bundle no_status : Text → Blocker

pub data Concern : Type 0 where
  role_failed : Concern
  quorum_concerns : Text → List Text → Concern
  empty_bundle : Text → Concern

-- `results.get(id) in SUCCESS_RESULTS`
unfoldable pub succeeded : Option RoleResult → Bool
unfolding is_success
succeeded none = false
succeeded (some r) = is_success r

unfoldable pub load_bearing_failed : Dict RoleResult → Bool
unfolding is_failed is_load_bearing_result_task
load_bearing_failed agg =
    any (λ (e : Text × RoleResult). is_failed e.1 && is_load_bearing_result_task e.0) agg

unfoldable pub any_role_failed : Dict RoleResult → Bool
unfolding is_failed
any_role_failed results = any (λ (e : Text × RoleResult). is_failed e.1) results

abbrev pub marker : Text
marker = codes "No agent STATUS text captured."

abbrev pub when {ℓ} : {A : Type ℓ} → Bool → A → List A
when true a = a ∷ []
when false a = []

module _ (profile : Text → Option Bool) (bundles : Dict Bundle)
    (results agg : Dict RoleResult) where
  abbrev pub bundle_blockers : Text → Option Bundle → List Blocker
  bundle_blockers id none = no_bundle id ∷ []
  bundle_blockers id (some b) =
      when (b.diff_bytes == 0 && not (succeeded (get id results))) (Blocker.empty_bundle id)
      ++ when (not b.status_captured) (no_status id)

  -- The round of the loop for one task.
  unfoldable pub task_blockers : Text → List Blocker
  unfolding is_mutator_task slice_family succeeded
  task_blockers id =
      if not (is_mutator_task profile id)
      then []
      else if not (teq (slice_family id) id) && succeeded (get (slice_family id) agg)
      then []
      else bundle_blockers id (get id bundles)

  unfoldable pub tasks_blockers : List Text → List Blocker
  unfolding task_blockers
  tasks_blockers [] = []
  tasks_blockers (id ∷ ids) = task_blockers id ++ tasks_blockers ids

  unfoldable pub task_concerns : Text → List Concern
  unfolding is_mutator_task succeeded
  task_concerns id = if not (is_mutator_task profile id) then [] else elim (get id bundles) [
    | none ↦ []
    | some b ↦ when (b.diff_bytes == 0 && succeeded (get id results)) (Concern.empty_bundle id)
  ]

  unfoldable pub tasks_concerns : List Text → List Concern
  unfolding task_concerns
  tasks_concerns [] = []
  tasks_concerns (id ∷ ids) = task_concerns id ++ tasks_concerns ids

unfoldable pub runtime_blockers :
    (Text → Option Bool)
    → ℕ
    → ℕ
    → List Text
    → List Text
    → Dict Bundle
    → Dict RoleResult
    → List Blocker
unfolding aggregated_role_results load_bearing_failed contains tasks_blockers
runtime_blockers profile num den ids bodies bundles results =
    let agg = aggregated_role_results num den results in
    when (load_bearing_failed agg) Blocker.role_failed
    ++ (when (any (contains marker) bodies) status_fallback
        ++ tasks_blockers profile bundles results agg ids)

unfoldable pub is_dwc : Option RoleResult → Bool
is_dwc (some done_with_concerns) = true
is_dwc _ = false

-- The slices of a family that are not DONE, in the order of their ids.
unfoldable pub failing_slices : Text → Dict RoleResult → List Text
unfolding slice_family is_done sort_texts
failing_slices family results = sort_texts (
    map (λ (e : Text × RoleResult). e.0)
      (filter
        (λ (e : Text × RoleResult).
          teq (slice_family e.0) family && not (teq e.0 family) && not (is_done e.1))
        results))

unfoldable pub family_concerns : Text → Dict RoleResult → Dict RoleResult → List Concern
unfolding failing_slices is_dwc
family_concerns family agg results =
    let failing = failing_slices family results in
    if is_dwc (get family agg)
    then elim failing [ [] ↦ [] | id ∷ ids ↦ quorum_concerns family (id ∷ ids) ∷ [] ]
    else []

unfoldable pub runtime_concerns :
    (Text → Option Bool) → ℕ → ℕ → List Text → Dict Bundle → Dict RoleResult → List Concern
unfolding aggregated_role_results family_concerns load_bearing_failed any_role_failed tasks_concerns
runtime_concerns profile num den ids bundles results =
    let agg = aggregated_role_results num den results in
    family_concerns implementer agg results
    ++ (family_concerns reviewer agg results
        ++ (when (any_role_failed results && not (load_bearing_failed agg)) Concern.role_failed
            ++ tasks_concerns profile bundles results agg ids))
