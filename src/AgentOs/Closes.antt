-- ===== src/AgentOs/Closes.antt =====
-- When the Agent OS lane closes: scripts/agent_os_closure_gate.py on the report of
-- scripts/agent_os_uat_response_gate.py.
use ao_operator.Base.{
  ◌≡◌, refl, ◌∙◌, ap, Bool, true, false, not, all, ◌&&◌, Option, some, ◌++◌, arith,
}
use ao_operator.Base.Empty.{is_empty}
use ao_operator.Text.{codes, teq}
use ao_operator.AgentOs.Router.{is_value, is_true, is_false}
use ao_operator.AgentOs.Uat.{
  UatReport, ResponseData, SourceError, error_if, validate_source, closure_allowed, is_malformed,
  responses_of, evaluate_gate,
}
use ao_operator.AgentOs.Responses.{is_answered, closure_allowed_lem}
use ao_operator.AgentOs.Closing.{
  ReleaseReport, ClosingError, ClosingBlocker, add_if, validate_sources, evaluate_closure,
  verdict_text, report_of,
}

-- The report that asks for the responses: it passes, authorises nothing, and has an item.
abbrev pub is_source : UatReport → Bool
is_source u =
    is_value (codes "ao-operator/agent-os-uat-state/v1") u.schema
    && (is_value (codes "PASS") u.verdict
        && (is_false u.dispatch_authorized
            && (is_false u.live_providers_run
                && (is_false u.closure_authorized && not (is_empty u.uat_items)))))

-- The report on the release: it passes, authorises no dispatch, and is ready to ship.
abbrev pub is_releasable : ReleaseReport → Bool
is_releasable r =
    is_value (codes "ao-operator/release-readiness-gate/v1") r.schema
    && (is_value (codes "PASS") r.verdict
        && (is_false r.dispatch_authorized
            && (is_false r.live_providers_run && is_true r.ship_ready)))

is_empty-six :
    (a b c d e f : Bool) (x y z u v w : SourceError)
    → is_empty (
        error_if (not a) x
        ++ (error_if (not b) y
            ++ (error_if (not c) z
                ++ (error_if (not d) u ++ (error_if (not e) v ++ error_if f w)))))
      ≡ (a && (b && (c && (d && (e && not f)))))
is_empty-six a b c d e f x y z u v w = ground arith

is_empty-source : (u : UatReport) → is_empty (validate_source u) ≡ is_source u
unfolding validate_source
is_empty-source u =
    is_empty-six (is_value (codes "ao-operator/agent-os-uat-state/v1") u.schema)
      (is_value (codes "PASS") u.verdict) (is_false u.dispatch_authorized)
      (is_false u.live_providers_run) (is_false u.closure_authorized) (is_empty u.uat_items)
      SourceError.uat_schema SourceError.uat_verdict SourceError.uat_dispatch SourceError.uat_live
      SourceError.uat_closure SourceError.no_items

-- Of the report of the response gate only the verdict and the closure are not fixed.
closed_lem :
    (passes allowed a b c d ship : Bool) (x y z u v : ClosingError) (k l : ClosingBlocker)
    → (is_empty (
          add_if (not passes) x
          ++ (add_if (not a) y ++ (add_if (not b) z ++ (add_if (not c) u ++ add_if (not d) v))))
        && is_empty (add_if (not allowed) k ++ add_if (not ship) l))
      ≡ ((passes && allowed) && (a && (b && (c && (d && ship)))))
closed_lem passes allowed a b c d ship x y z u v k l = ground arith

is_value-verdict : (b : Bool) → is_value (codes "PASS") (some (verdict_text b)) ≡ b
unfolding teq
is_value-verdict true = refl
is_value-verdict false = refl

is_true-some : (b : Bool) → is_true (some b) ≡ b
is_true-some true = refl
is_true-some false = refl

merged : (e m k r : Bool) → (((e && m) && (e && (m && k))) && r) ≡ ((e && (m && k)) && r)
merged e m k r = ground arith

-- The lane closes exactly if the report that asks for the responses is in order, the responses are of
-- their schema or there are none, the last response to each item accepts it and is complete, and the release is ready;
-- and no dispatch is authorised even then.
pub evaluate_closure-evaluate_gate :
    (u : UatReport) (found : Option ResponseData) (release : ReleaseReport)
    → ((evaluate_closure (report_of (evaluate_gate u found)) release).agent_os_closed ≡ (
        (is_source u
          && (not (is_malformed found) && all (is_answered (responses_of found)) u.uat_items))
        && is_releasable release))
      × ((evaluate_closure (report_of (evaluate_gate u found)) release).dispatch_authorized ≡ false)
unfolding evaluate_closure evaluate_gate validate_sources teq
evaluate_closure-evaluate_gate u found release =
    let e = is_empty (validate_source u) in
    let m = not (is_malformed found) in
    let k = closure_allowed u.uat_items (responses_of found) in
    let a = is_value (codes "ao-operator/release-readiness-gate/v1") release.schema in
    let b = is_value (codes "PASS") release.verdict in
    let c = is_false release.dispatch_authorized in
    let d = is_false release.live_providers_run in
    let tests = λ (p x : Bool).
      is_empty (
        add_if (not p) ClosingError.response_verdict
        ++ (add_if (not a) ClosingError.readiness_schema
            ++ (add_if (not b) ClosingError.readiness_verdict
                ++ (add_if (not c) ClosingError.readiness_dispatch
                    ++ add_if (not d) ClosingError.readiness_live))))
      && is_empty (
          add_if (not x) ClosingBlocker.not_authorized
          ++ add_if (not (is_true release.ship_ready)) ClosingBlocker.not_ship_ready) in
    (
      ap (λ p. tests p (is_true (some (e && (m && k))))) (is_value-verdict (e && m))
          ∙ ap (tests (e && m)) (is_true-some (e && (m && k)))
          ∙ closed_lem (e && m) (e && (m && k)) a b c d (is_true release.ship_ready)
              ClosingError.response_verdict ClosingError.readiness_schema
              ClosingError.readiness_verdict ClosingError.readiness_dispatch
              ClosingError.readiness_live ClosingBlocker.not_authorized
              ClosingBlocker.not_ship_ready
          ∙ merged e m k (is_releasable release)
          ∙ ap (λ x. (x && (m && k)) && is_releasable release) (is_empty-source u)
          ∙ ap (λ x. (is_source u && (m && x)) && is_releasable release)
              (closure_allowed_lem u.uat_items (responses_of found)),
      refl,
    )
