-- ===== src/Roles/Tests.antt =====
-- The roles on small inputs.
use ao_operator.Base.{
  ◌≡◌, ◌≢◌, ◌↔◌, refl, Bool, true, false, not, ◌&&◌, Option, none, some, List, [], ◌∷◌, any, all,
  length, ap, arith, ltb, count, ◌*◌, if◌then◌else◌,
}
use ao_operator.Text.{Text, codes, contains, starts_with}
use ao_operator.Base.{◌==◌, ◌||◌}
use ao_operator.Dict.{Dict, get}
use ao_operator.Roles.Ids.{
  RoleResult, is_success, is_done, done, done_with_concerns, blocked, implementer,
  implementer_prefix, reviewer_prefix,
}
use ao_operator.Roles.Quorum.{slice_quorum_verdict, aggregated_role_results}
use ao_operator.Roles.Aggregate.{slice_quorum_verdict_lem, get-aggregated_implementer}
use ao_operator.Roles.Groups.{slices}
use ao_operator.Roles.Runtime.{Bundle, runtime_blockers, load_bearing_failed, marker}
use ao_operator.Roles.Verdict.{is_clear, runtime_blockers-nil}

abbrev results : Dict RoleResult
results =
    (codes "implementer-slice-1", done)
    ∷ (codes "reviewer-slice-1", done)
    ∷ (codes "implementer-slice-2", blocked)
    ∷ (codes "implementer-slice-3", done)
    ∷ (codes "implementer-slice-4", done)
    ∷ []

abbrev is_nil : List RoleResult → Bool
is_nil [] = true
is_nil (r ∷ rs) = false

implementer_reported : slices implementer_prefix results ≢ []
unfolding slices starts_with
implementer_reported e = let same : false ≡ true = ap is_nil e in absurd (ground arith)

reviewer_reported : slices reviewer_prefix results ≢ []
unfolding slices starts_with
reviewer_reported e = let same : false ≡ true = ap is_nil e in absurd (ground arith)

abbrev profile : Text → Option Bool
profile id = none

three_of_four : slices implementer_prefix results ≡ done ∷ blocked ∷ done ∷ done ∷ []
unfolding slices starts_with
three_of_four = refl

get-aggregated_implementer_example :
    get implementer (aggregated_role_results 3 4 results)
    ≡ some (
        slice_quorum_verdict 3 4
          (slices implementer_prefix results)
          (length (slices implementer_prefix results)))
get-aggregated_implementer_example = get-aggregated_implementer 3 4 results implementer_reported

abbrev quiet : Dict RoleResult
quiet =
    (codes "implementer-slice-1", done)
    ∷ (codes "reviewer-slice-1", done)
    ∷ (codes "implementer-slice-2", done)
    ∷ (codes "integrator", done)
    ∷ []

abbrev bundles : Dict Bundle
bundles = (codes "implementer-slice-1", record { diff_bytes = 10; status_captured = true }) ∷ []

runtime_blockers-nil_example :
    (runtime_blockers profile 3 4 (codes "implementer-slice-1" ∷ []) [] bundles results ≡ []) ↔ (
      (not (load_bearing_failed (aggregated_role_results 3 4 results))
        && (not (any (contains marker) [])
            && all
                (is_clear profile bundles results (aggregated_role_results 3 4 results))
                (codes "implementer-slice-1" ∷ [])))
      ≡ true)
runtime_blockers-nil_example =
    runtime_blockers-nil profile 3 4 (codes "implementer-slice-1" ∷ []) [] bundles results

slice_quorum_verdict_lem_example :
    slice_quorum_verdict 3 4 (done ∷ blocked ∷ done ∷ done ∷ []) 4 ≡ (
      if 4 == 0
        || (4 == 0 || ltb (count is_success (done ∷ blocked ∷ done ∷ done ∷ []) * 4) (3 * 4))
      then blocked
      else if all is_done (done ∷ blocked ∷ done ∷ done ∷ [])
      then done
      else done_with_concerns)
slice_quorum_verdict_lem_example =
    slice_quorum_verdict_lem 3 4 4 (done ∷ blocked ∷ done ∷ done ∷ [])
