-- ===== src/AgentOs/Router.antt =====
-- scripts/agent_os_router.py: the route of a brief and the two snapshots of the state.
use ao_operator.Base.{
  Bool, true, false, not, ◌&&◌, ◌||◌, Option, none, some, List, [], ◌∷◌, ◌++◌, map, any, filter,
  if◌then◌else◌,
}
use ao_operator.Base.Empty.{is_empty}
use ao_operator.Text.{Text, codes, teq, mem, first_of_each}
use ao_operator.AgentOs.Brief.{
  Shape, greenfield, bug_fix, refactor, Classification, trivial, moderate, complex, classify,
  shape_gate,
}

abbrev pub live_provider : Text
live_provider = codes "live-provider"

abbrev pub valid_labels : List Text
valid_labels =
    codes "fast"
    ∷ codes "quick"
    ∷ codes "phase"
    ∷ live_provider
    ∷ codes "remote-worker"
    ∷ codes "security-sensitive"
    ∷ codes "frontend"
    ∷ codes "release"
    ∷ []

abbrev pub default_route : Classification → Text
default_route trivial = codes "fast"
default_route moderate = codes "quick"
default_route complex = codes "phase"

abbrev pub check_if : Bool → Text → List Text
check_if true t = t ∷ []
check_if false t = []

abbrev pub shape_checks : Shape → List Text
shape_checks greenfield = []
shape_checks bug_fix = codes "failing reproducer or red-to-green evidence" ∷ []
shape_checks refactor = codes "pinning suite or preservation evidence" ∷ []

unfoldable pub infer_required_verification : Shape → List Text → List Text
unfolding teq
infer_required_verification shape routes =
    codes "python3 scripts/validate.py"
    ∷ codes "python3 -m pytest -q"
    ∷ (shape_checks shape
        ++ (check_if (mem live_provider routes)
              (codes "explicit approval artifact and provider budget evidence")
            ++ (check_if (mem (codes "remote-worker") routes)
                  (codes "Mac-to-Ubuntu transfer or RuntimeService smoke evidence")
                ++ check_if (mem (codes "release") routes)
                    (codes "python3 scripts/check_release_readiness.py --json"))))

pub data Blocker : Type 0 where
  gate_blocked : Shape → Blocker
  needs_approval : Blocker

pub data Next : Type 0 where
  create_approval record_route fix_blockers : Next

pub record Route : Type 0 where
  pub classification : Classification
  pub shape : Shape
  pub routes : List Text
  pub blockers : List Blocker
  pub dispatch_authorized : Bool
  pub live_providers_run : Bool
  pub required_verification : List Text
  pub next_safe_command : Next

abbrev pub blocker_if : Bool → Blocker → List Blocker
blocker_if true b = b ∷ []
blocker_if false b = []

-- A trivial brief with a label that is not trivial.
abbrev pub raised : List Text → Classification → Classification
raised requested trivial =
    if any (λ l. mem l requested)
      (codes "remote-worker" ∷ codes "security-sensitive" ∷ codes "frontend" ∷ codes "release" ∷ [])
    then moderate
    else trivial
raised requested moderate = moderate
raised requested complex = complex

unfoldable pub routes_of : List Text → Classification → List Text
unfolding teq first_of_each
routes_of requested c =
    first_of_each []
      (if mem live_provider requested then requested else default_route c ∷ requested)

unfoldable pub blockers_of : Shape → Text → List Text → List Blocker
unfolding teq shape_gate
blockers_of shape brief routes =
    blocker_if (shape_gate shape brief) (gate_blocked shape)
    ++ blocker_if (mem live_provider routes) needs_approval

unfoldable pub requested_of : List Text → List Text
unfolding teq
requested_of labels = filter (λ l. mem l valid_labels) labels

unfoldable pub route_brief : Text → List Text → Route
unfolding requested_of classify routes_of blockers_of infer_required_verification
route_brief brief labels =
    let requested = requested_of labels in
    let (first, shape) = classify brief in
    let c = raised requested first in
    let routes = routes_of requested c in
    let blockers = blockers_of shape brief routes in
    record {
      classification = c;
      shape = shape;
      routes = routes;
      blockers = blockers;
      dispatch_authorized = is_empty blockers;
      live_providers_run = false;
      required_verification = infer_required_verification shape routes;
      next_safe_command =
          if mem live_provider routes && not (is_empty blockers)
          then create_approval
          else if is_empty blockers
          then record_route
          else fix_blockers;
    }

pub record Snapshot : Type 0 where
  pub route : Route
  pub dispatch_authorized : Bool
  pub live_providers_run : Bool
  pub blockers : List Blocker
  pub next_safe_command : Next

-- `build_state_snapshot`
abbrev pub build_state_snapshot : Route → Snapshot
build_state_snapshot route = record {
  route = route;
  dispatch_authorized = route.dispatch_authorized;
  live_providers_run = false;
  blockers = route.blockers;
  next_safe_command = route.next_safe_command;
}

-- The report on the architecture, as far as it is read; a field is missing, or not of its type.
pub record Readiness : Type 0 where
  pub schema : Option Text
  pub verdict : Option Text
  pub architecture_ready : Option Bool
  pub dispatch_authorized : Option Bool
  pub live_providers_run : Option Bool
  pub blockers : Option (List Text)

pub data StateBlocker : Type 0 where
  route_blocker : Blocker → StateBlocker
  readiness_schema readiness_verdict readiness_dispatch readiness_live : StateBlocker
  readiness_blocker : Text → StateBlocker

abbrev pub state_blocker_if : Bool → StateBlocker → List StateBlocker
state_blocker_if true b = b ∷ []
state_blocker_if false b = []

abbrev pub is_value : Text → Option Text → Bool
is_value t none = false
is_value t (some u) = teq u t

abbrev pub is_true : Option Bool → Bool
is_true (some true) = true
is_true _ = false

abbrev pub is_false : Option Bool → Bool
is_false (some false) = true
is_false _ = false

abbrev pub named_blockers : Option (List Text) → List StateBlocker
named_blockers none = []
named_blockers (some l) = map readiness_blocker (filter (λ t. not (is_empty t)) l)

unfoldable pub state_blockers : List Blocker → Readiness → List StateBlocker
unfolding teq
state_blockers blockers r =
    map route_blocker blockers
    ++ (state_blocker_if
          (not (is_value (codes "ao-operator/agent-os-architecture-readiness/v1") r.schema))
          readiness_schema
        ++ (state_blocker_if
              (not (is_value (codes "PASS") r.verdict) || not (is_true r.architecture_ready))
              readiness_verdict
            ++ (state_blocker_if (not (is_false r.dispatch_authorized)) readiness_dispatch
                ++ (state_blocker_if (not (is_false r.live_providers_run)) readiness_live
                    ++ named_blockers r.blockers))))

pub record SnapshotV2 : Type 0 where
  pub route : Route
  pub architecture_ready : Bool
  pub dispatch_authorized : Bool
  pub live_providers_run : Bool
  pub blockers : List StateBlocker
  pub passes : Bool

unfoldable pub build_state_snapshot_v2 : Route → Readiness → SnapshotV2
unfolding state_blockers
build_state_snapshot_v2 route r =
    let blockers = state_blockers route.blockers r in
    record {
      route = route;
      architecture_ready = is_true r.architecture_ready && is_empty blockers;
      dispatch_authorized = false;
      live_providers_run = false;
      blockers = blockers;
      passes = is_empty blockers;
    }
