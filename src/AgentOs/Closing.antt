-- ===== src/AgentOs/Closing.antt =====
-- scripts/agent_os_closure_gate.py: the closure of the Agent OS lane, by the reports of the response gate
-- and on the release.
use ao_operator.Base.{
  Bool, true, false, not, Option, some, List, [], ◌∷◌, ◌++◌, ◌&&◌, if◌then◌else◌,
}
use ao_operator.Base.Empty.{is_empty}
use ao_operator.Text.{Text, codes, teq}
use ao_operator.AgentOs.Router.{is_value, is_true, is_false}
use ao_operator.AgentOs.Uat.{Gate}

pub record ResponseReport : Type 0 where
  pub schema : Option Text
  pub verdict : Option Text
  pub dispatch_authorized : Option Bool
  pub live_providers_run : Option Bool
  pub closure_authorized : Option Bool

pub record ReleaseReport : Type 0 where
  pub schema : Option Text
  pub verdict : Option Text
  pub dispatch_authorized : Option Bool
  pub live_providers_run : Option Bool
  pub ship_ready : Option Bool

pub data ClosingError : Type 0 where
  response_schema response_verdict response_dispatch response_live : ClosingError
  readiness_schema readiness_verdict readiness_dispatch readiness_live : ClosingError

pub data ClosingBlocker : Type 0 where
  not_authorized not_ship_ready : ClosingBlocker

abbrev pub add_if {ℓ} : {A : Type ℓ} → Bool → A → List A
add_if true x = x ∷ []
add_if false x = []

unfoldable pub validate_sources : ResponseReport → ReleaseReport → List ClosingError
unfolding teq
validate_sources response readiness =
    add_if (not (is_value (codes "ao-operator/agent-os-uat-response-gate/v1") response.schema))
      response_schema
    ++ (add_if (not (is_value (codes "PASS") response.verdict)) response_verdict
        ++ (add_if (not (is_false response.dispatch_authorized)) response_dispatch
            ++ (add_if (not (is_false response.live_providers_run)) response_live
                ++ (add_if
                      (not
                        (is_value (codes "ao-operator/release-readiness-gate/v1") readiness.schema))
                      readiness_schema
                    ++ (add_if (not (is_value (codes "PASS") readiness.verdict)) readiness_verdict
                        ++ (add_if (not (is_false readiness.dispatch_authorized)) readiness_dispatch
                            ++ add_if (not (is_false readiness.live_providers_run))
                                readiness_live))))))

abbrev pub closure_blockers : ResponseReport → ReleaseReport → List ClosingBlocker
closure_blockers response readiness =
    add_if (not (is_true response.closure_authorized)) not_authorized
    ++ add_if (not (is_true readiness.ship_ready)) not_ship_ready

pub record Closing : Type 0 where
  pub passes : Bool
  pub agent_os_closed : Bool
  pub closure_authorized : Bool
  pub dispatch_authorized : Bool
  pub live_providers_run : Bool
  pub blockers : List ClosingBlocker
  pub errors : List ClosingError

unfoldable pub evaluate_closure : ResponseReport → ReleaseReport → Closing
unfolding validate_sources
evaluate_closure response readiness =
    let errors = validate_sources response readiness in
    let blockers = closure_blockers response readiness in
    let closed = is_empty errors && is_empty blockers in
    record {
      passes = is_empty errors;
      agent_os_closed = closed;
      closure_authorized = closed;
      dispatch_authorized = false;
      live_providers_run = false;
      blockers = blockers;
      errors = errors;
    }

abbrev pub verdict_text : Bool → Text
verdict_text b = if b then codes "PASS" else codes "FAIL"

-- The report that the response gate writes, as the closure gate reads it.
abbrev pub report_of : Gate → ResponseReport
report_of g = record {
  schema = some (codes "ao-operator/agent-os-uat-response-gate/v1");
  verdict = some (verdict_text g.passes);
  dispatch_authorized = some g.dispatch_authorized;
  live_providers_run = some g.live_providers_run;
  closure_authorized = some g.closure_authorized;
}
