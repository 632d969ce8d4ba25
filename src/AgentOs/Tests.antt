-- ===== src/AgentOs/Tests.antt =====
-- The Agent OS scripts on small inputs.
use ao_operator.Base.{◌≡◌, refl, true, false, not, all, ◌&&◌, Option, none, some, [], ◌∷◌}
use ao_operator.Text.{Text, codes, teq, mem}
use ao_operator.AgentOs.Brief.{bug_fix, refactor, trivial, complex, classify, shape_gate}
use ao_operator.AgentOs.Router.{
  live_provider, gate_blocked, needs_approval, route_brief, Readiness, build_state_snapshot_v2,
}
use ao_operator.AgentOs.Routes.{is_ready, build_state_snapshot_v2-pass}
use ao_operator.AgentOs.Uat.{UatReport, accepted, ResponseData, is_malformed, evaluate_gate}
use ao_operator.AgentOs.Responses.{is_answered}
use ao_operator.AgentOs.Closing.{ReleaseReport, evaluate_closure, report_of}
use ao_operator.AgentOs.Closes.{is_source, is_releasable, evaluate_closure-evaluate_gate}

abbrev brief : Text
brief = codes "Fix the typo.\nFailing test: tests/test_a.py\n"

abbrev readiness : Readiness
readiness = record {
  schema = some (codes "ao-operator/agent-os-architecture-readiness/v1");
  verdict = some (codes "PASS");
  architecture_ready = some true;
  dispatch_authorized = some false;
  live_providers_run = some false;
  blockers = some [];
}

classified : classify brief ≡ (trivial, bug_fix)
unfolding classify
classified = refl

-- A shape that the brief names comes before the words that hint at another.
classified_named :
    classify (codes "Shape: refactor\nfix the frontend, the backend and the database")
    ≡ (complex, refactor)
unfolding classify
classified_named = refl

route_release :
    (route_brief brief (codes "release" ∷ codes "other" ∷ [])).routes
    ≡ codes "quick" ∷ codes "release" ∷ []
unfolding route_brief teq
route_release = refl

route_live :
    (route_brief (codes "fix it") (live_provider ∷ [])).blockers
    ≡ gate_blocked bug_fix ∷ needs_approval ∷ []
unfolding route_brief teq
route_live = refl

build_state_snapshot_v2-pass_example :
    ((build_state_snapshot_v2 (route_brief brief []) readiness).passes ≡ (
      not (shape_gate (classify brief).1 brief)
      && (not (mem live_provider []) && is_ready readiness)))
    × ((build_state_snapshot_v2 (route_brief brief []) readiness).dispatch_authorized ≡ false)
build_state_snapshot_v2-pass_example = build_state_snapshot_v2-pass brief [] readiness

snapshot_passes : (build_state_snapshot_v2 (route_brief brief []) readiness).passes ≡ true
unfolding build_state_snapshot_v2 route_brief teq
snapshot_passes = refl

abbrev report : UatReport
report = record {
  schema = some (codes "ao-operator/agent-os-uat-state/v1");
  verdict = some (codes "PASS");
  dispatch_authorized = some false;
  live_providers_run = some false;
  closure_authorized = some false;
  uat_items = some (codes "uat-1") ∷ [];
}

abbrev answered : Option Text → ResponseData
answered by = record {
  schema = some (codes "ao-operator/agent-os-uat-responses/v1");
  responses =
      record {
        id = some (codes "uat-1");
        answer = accepted;
        response = some (codes "yes");
        responder = by;
        responded_at = some (codes "2026-01-01");
      }
      ∷ [];
}

abbrev release : ReleaseReport
release = record {
  schema = some (codes "ao-operator/release-readiness-gate/v1");
  verdict = some (codes "PASS");
  dispatch_authorized = some false;
  live_providers_run = some false;
  ship_ready = some true;
}

evaluate_closure-evaluate_gate_example :
    ((evaluate_closure
        (report_of (evaluate_gate report (some (answered (some (codes "ada"))))))
        release).agent_os_closed
      ≡ ((is_source report
            && (not (is_malformed (some (answered (some (codes "ada")))))
                && all (is_answered (answered (some (codes "ada"))).responses) report.uat_items))
          && is_releasable release))
    × ((evaluate_closure
          (report_of (evaluate_gate report (some (answered (some (codes "ada"))))))
          release).dispatch_authorized
        ≡ false)
evaluate_closure-evaluate_gate_example =
    evaluate_closure-evaluate_gate report (some (answered (some (codes "ada")))) release

closes :
    (evaluate_closure
      (report_of (evaluate_gate report (some (answered (some (codes "ada"))))))
      release).agent_os_closed
    ≡ true
unfolding evaluate_closure evaluate_gate teq
closes = refl

-- An accepted response that lacks its responder: the gate does not authorise, and names no blocker.
no_responder : (evaluate_gate report (some (answered none))).closure_authorized ≡ false
unfolding evaluate_gate teq
no_responder = refl

no_responder_blockers : (evaluate_gate report (some (answered none))).blockers ≡ []
unfolding evaluate_gate teq
no_responder_blockers = refl
