-- ===== src/GateR/Tests.antt =====
-- Gate R on small inputs.
use ao_operator.Base.{
  false, ◌≡◌, ◌↔◌, refl, true, not, ◌&&◌, none, some, List, [], ◌∷◌, all, if◌then◌else◌,
}
use ao_operator.Base.Empty.{is_empty}
use ao_operator.Text.{Text, codes, teq}
use ao_operator.Text.{mem}
use ao_operator.GateB.Slices.{Partition}
use ao_operator.GateB.Spec.{Role, spec_role, spec_contract}
use ao_operator.GateB.Passes.{is_new_each}
use ao_operator.GateR.Status.{status_result, status_artifact}
use ao_operator.GateR.Honours.{report_of, output_errors-honoured}
use ao_operator.GateR.Defs.{
  output_errors, is_failure, GateBReport, missing, Tree, artifact_drift, unexpected_artifact,
  expected_role_artifacts, allowed_artifacts, slices_of, run_gate,
}
use ao_operator.GateR.Laws.{run_gate-nil}
use ao_operator.GateR.Complete.{is_complete, is_expected, are_joined}

abbrev slug : Text
slug = codes "run"

abbrev planner : Text
planner = codes "run-artifacts/run/roles/planner.md"

abbrev report : GateBReport
report = record {
  role_artifacts = some ((codes "planner", planner) ∷ []);
  spec_roles = some ((codes "planner", some (planner ∷ codes "docs/plans/run-plan.md" ∷ [])) ∷ []);
  role_contracts = codes "planner" ∷ [];
  spec_slices = none;
  partition_slices = none;
}

abbrev tree_with : Text → List Text → Tree
tree_with body others = record {
  file = λ path. if teq path planner then some body else none;
  role_files = planner ∷ others;
  patch = λ task. missing;
}

abbrev body : Text
body = codes "Plan.\nResult: DONE\nArtifact: docs/plans/run-plan.md\n"

run_gate-nil_example : (run_gate (tree_with body []) slug report ≡ []) ↔ (
    (not (is_empty (expected_role_artifacts report slug))
      && (all
            (is_complete (tree_with body []) (allowed_artifacts report slug))
            (expected_role_artifacts report slug)
          && (all (is_expected slug (expected_role_artifacts report slug)) (planner ∷ [])
              && are_joined
                  (tree_with body [])
                  slug
                  (expected_role_artifacts report slug)
                  (slices_of report))))
    ≡ true)
run_gate-nil_example = run_gate-nil (tree_with body []) slug report

passes : run_gate (tree_with body []) slug report ≡ []
unfolding run_gate teq
passes = refl

drifts :
    run_gate (tree_with (codes "Result: DONE\nArtifact: src/a.py\n") []) slug report
    ≡ artifact_drift (codes "planner") (codes "src/a.py") ∷ []
unfolding run_gate teq
drifts = refl

unexpected :
    run_gate (tree_with body (codes "run-artifacts/run/roles/other.md" ∷ [])) slug report
    ≡ unexpected_artifact (codes "run-artifacts/run/roles/other.md") ∷ []
unfolding run_gate teq
unexpected = refl

abbrev planning : Role
planning = record {
  id = codes "planner";
  reads = [];
  writes = codes "docs/plans/<slug>-plan.md" ∷ [];
  skills = [];
  is_mutator = false;
}

abbrev no_partition : Partition
no_partition = record { slices = []; errors = [] }

planner_new : is_new_each [] (planning ∷ []) ≡ true
unfolding teq
planner_new = refl

planner_there : (tree_with body []).file planner ≡ some body
unfolding teq
planner_there = refl

body_result : is_empty (status_result body) ≡ false
unfolding status_result
body_result = refl

body_fine : is_failure (status_result body) ≡ false
unfolding status_result teq
body_fine = refl

body_artifact : is_empty (status_artifact body) ≡ false
unfolding status_artifact
body_artifact = refl

body_allowed : mem (status_artifact body) (spec_role slug planning).allowed_artifacts ≡ true
unfolding status_artifact spec_role teq
body_allowed = refl

output_errors-honoured_example :
    output_errors
      (tree_with body [])
      (allowed_artifacts (report_of (spec_contract slug (planning ∷ []) no_partition)) slug)
      (codes "planner", planner)
    ≡ []
output_errors-honoured_example =
    output_errors-honoured slug [] [] planning no_partition (tree_with body []) planner body
      planner_new planner_there body_result body_fine body_artifact body_allowed
