-- ===== src/Operator/Tests.antt =====
-- The operator's controls on small inputs.
use ao_operator.Base.{◌≡◌, refl, true, false, not, ◌&&◌, Option, none, some, [], ◌∷◌, ◌++◌}
use ao_operator.Text.{Text, codes, teq}
use ao_operator.Operator.State.{
  Approval, Evidence, approval_file_ok, accepted, approval_env_name, accepted_50_live,
  ready_for_approval, summarize,
}
use ao_operator.Operator.Authority.{
  is_prepared, is_awaited, summarize-unapproved, summarize-authorized,
}
use ao_operator.Operator.Control.{
  absent, unreadable, read, file_exists, Request, World, approval, approval_errors, perform,
}
use ao_operator.Operator.Audit.{
  lines_of, perform-audit, perform-authorized, approval_keeps, approval_file_ok-written,
}

abbrev passed : Option Text
passed = some (codes "PASS")

abbrev prepared : Evidence
prepared = record {
  prep_report = passed;
  provider_budget = passed;
  approval_gate = passed;
  rehearsal = passed;
  postrun_route = passed;
  route = some (codes "WAIT_FOR_50_SLICE_LIVE_RUN");
  acceptance_verdict = none;
  commit_success_evidence_allowed = false;
  accepted_25_live = passed;
}

abbrev unprepared : Evidence
unprepared = record prepared { prep_report = none; provider_budget = none }

abbrev file : Approval
file = record {
  approved = true;
  target_slices = 50;
  target_tasks = 107;
  approval_env = approval_env_name;
  approved_by = codes "operator";
}

abbrev request : Request
request = record {
  approved_by = codes "operator";
  approval_source = codes "ticket";
  target_slices = 50;
  target_tasks = 107;
  env_set = true;
  write_approval_file = true;
  overwrite = false;
}

abbrev world : World
world = record { evidence = prepared; approval_file = absent; audit = [] }

abbrev garbled_world : World
garbled_world = record world { approval_file = unreadable }

summarize-unapproved_example :
    ((summarize unprepared none).current_state ≡ ready_for_approval)
    × ((summarize unprepared none).passes ≡ true)
unfolding approval_file_ok accepted_50_live teq
summarize-unapproved_example = summarize-unapproved unprepared none refl refl

summarize-authorized_example : (summarize prepared (some file)).dispatch_authorized ≡ (
    (approval_file_ok (some file)).0
    && (is_prepared prepared && (not (accepted_50_live prepared) && is_awaited prepared)))
summarize-authorized_example = summarize-authorized prepared (some file)

authorized : (summarize prepared (some file)).dispatch_authorized ≡ true
unfolding summarize
authorized = refl

perform-audit_example :
    ((perform true (approval request) world).0.audit
      ≡ [] ++ lines_of true (perform true (approval request) world).1)
    × ((perform true (approval request) world).0.evidence ≡ prepared)
perform-audit_example = perform-audit true (approval request) world

perform-authorized_example :
    (r : Request) × (approval request ≡ approval r)
    × (approval_errors world r ≡ [])
    × ((summarize
          (perform true (approval request) world).0.evidence
          (read (perform true (approval request) world).0.approval_file)).dispatch_authorized
        ≡ true)
perform-authorized_example =
    perform-authorized true (approval request) world (unfold perform in refl)

approval_keeps_example :
    (perform true (approval request) garbled_world).0.approval_file ≡ unreadable
approval_keeps_example = approval_keeps true request garbled_world refl refl

garbled_blocks : (perform true (approval request) garbled_world).1.control.errors ≡ file_exists ∷ []
unfolding perform
garbled_blocks = refl

approval_file_ok-written_example :
    approval_file_ok (read (perform true (approval request) world).0.approval_file)
    ≡ (true, accepted)
approval_file_ok-written_example =
    approval_file_ok-written true request world (unfold approval_errors in refl) refl refl refl
