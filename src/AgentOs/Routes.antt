-- ===== src/AgentOs/Routes.antt =====
-- When scripts/agent_os_router.py authorises a dispatch, and when its second snapshot passes.
use ao_operator.Base.{
  ◌≡◌, refl, sym, ◌∙◌, ap, Bool, true, false, not, ◌&&◌, ◌||◌, List, [], ◌∷◌, ◌++◌, map, filter,
  if◌then◌else◌, arith, Bool-cases, inl, inr,
}
use ao_operator.Base.Empty.{is_empty, is_empty-append, is_empty-map}
use ao_operator.Text.{Text, codes, teq, teq→eq, mem, first_of_each}
use ao_operator.AgentOs.Brief.{Classification, trivial, moderate, complex, classify, shape_gate}
use ao_operator.AgentOs.Router.{
  live_provider, valid_labels, default_route, raised, requested_of, routes_of, blockers_of,
  blocker_if, Blocker, route_brief, Readiness, StateBlocker, state_blocker_if, is_value, is_true,
  is_false, named_blockers, state_blockers, build_state_snapshot_v2,
}

-- A text that passes a test is in what the test keeps.
mem-filter :
    (p : Text → Bool) (t : Text) (l : List Text) → p t ≡ true → mem t (filter p l) ≡ mem t l
mem-filter p t [] h = refl
mem-filter p t (u ∷ l) h = elim (Bool-cases (teq t u)) [
  | inl same ↦
      let passes : p u ≡ true = sym (ap p (teq→eq t u same)) ∙ h in ground (arith, passes, same)
  | inr other ↦ ground (arith, other, mem-filter p t l h)
]

mem_eq : (t u : Text) (l : List Text) → teq t u ≡ true → mem t l ≡ mem u l
mem_eq t u l h = ap (λ x. mem x l) (teq→eq t u h)

mem-first_of_each :
    (t : Text) (seen l : List Text) → mem t (first_of_each seen l) ≡ (not (mem t seen) && mem t l)
unfolding first_of_each
mem-first_of_each t seen [] = ground arith
mem-first_of_each t seen (u ∷ l) = elim (Bool-cases (teq t u)) [
  | inl same ↦ ground (arith, same, mem_eq t u seen same, mem-first_of_each t (u ∷ seen) l)
  | inr other ↦ ground (arith, other, mem-first_of_each t (u ∷ seen) l)
]

default_other : (c : Classification) → teq live_provider (default_route c) ≡ false
unfolding teq
default_other trivial = refl
default_other moderate = refl
default_other complex = refl

live_valid : mem live_provider valid_labels ≡ true
unfolding teq
live_valid = refl

mem-default :
    (m : Bool) (t d : Text) (l : List Text)
    → teq t d ≡ false
    → mem t (if m then l else d ∷ l) ≡ mem t l
mem-default true t d l h = refl
mem-default false t d l h = ap (λ b. b || mem t l) h

-- The routes have a live provider exactly if a label asks for one.
live-routes :
    (labels : List Text) (c : Classification)
    → mem live_provider (routes_of (requested_of labels) c) ≡ mem live_provider labels
unfolding routes_of requested_of
live-routes labels c =
    let requested = requested_of labels in
    let live = mem live_provider requested in
    mem-first_of_each live_provider [] (if live then requested else default_route c ∷ requested)
    ∙ mem-default live live_provider (default_route c) requested (default_other c)
    ∙ mem-filter (λ l. mem l valid_labels) live_provider labels live_valid

-- The report has the schema, passes and is ready, authorises no dispatch, has run no live provider, and
-- names no blocker.
abbrev pub is_ready : Readiness → Bool
is_ready r =
    is_value (codes "ao-operator/agent-os-architecture-readiness/v1") r.schema
    && ((is_value (codes "PASS") r.verdict && is_true r.architecture_ready)
        && (is_false r.dispatch_authorized
            && (is_false r.live_providers_run && is_empty (named_blockers r.blockers))))

is_empty-both :
    (a b : Bool) (x y : Blocker) → is_empty (blocker_if a x ++ blocker_if b y) ≡ (not a && not b)
is_empty-both a b x y = ground arith

-- A dispatch is authorised exactly if the brief passes the gate of its shape and no label asks for a live
-- provider.
authorized_lem :
    (brief : Text) (labels : List Text)
    → (route_brief brief labels).dispatch_authorized
      ≡ (not (shape_gate (classify brief).1 brief) && not (mem live_provider labels))
unfolding route_brief blockers_of
authorized_lem brief labels =
    let shape = (classify brief).1 in
    let routes =
      routes_of (requested_of labels) (raised (requested_of labels) (classify brief).0) in
    is_empty-both (shape_gate shape brief) (mem live_provider routes) (Blocker.gate_blocked shape)
      Blocker.needs_approval
    ∙ ap (λ b. not (shape_gate shape brief) && not b)
        (live-routes labels (raised (requested_of labels) (classify brief).0))

not_both : (a b : Bool) → (not a || not b) ≡ not (a && b)
not_both a b = ground arith

is_empty-tests :
    (a b c d : Bool) (x y z w : StateBlocker) (l : List StateBlocker)
    → is_empty (
        state_blocker_if (not a) x
        ++ (state_blocker_if (not b) y
            ++ (state_blocker_if (not c) z ++ (state_blocker_if (not d) w ++ l))))
      ≡ (a && (b && (c && (d && is_empty l))))
is_empty-tests a b c d x y z w l = ground arith

and_assoc : (a b c : Bool) → ((a && b) && c) ≡ (a && (b && c))
and_assoc a b c = ground arith

is_empty-state :
    (blockers : List Blocker) (r : Readiness)
    → is_empty (state_blockers blockers r) ≡ (is_empty blockers && is_ready r)
unfolding state_blockers
is_empty-state blockers r =
    let schema = is_value (codes "ao-operator/agent-os-architecture-readiness/v1") r.schema in
    let passed = is_value (codes "PASS") r.verdict in
    let named = named_blockers r.blockers in
    let tests = λ (b : Bool).
      state_blocker_if (not schema) StateBlocker.readiness_schema
      ++ (state_blocker_if b StateBlocker.readiness_verdict
          ++ (state_blocker_if (not (is_false r.dispatch_authorized))
                StateBlocker.readiness_dispatch
              ++ (state_blocker_if (not (is_false r.live_providers_run)) StateBlocker.readiness_live
                  ++ named))) in
    is_empty-append (map StateBlocker.route_blocker blockers)
      (tests (not passed || not (is_true r.architecture_ready)))
    ∙ cc (
      is_empty-map StateBlocker.route_blocker blockers,
      ap (λ b. is_empty (tests b)) (not_both passed (is_true r.architecture_ready)),
      is_empty-tests schema (passed && is_true r.architecture_ready)
          (is_false r.dispatch_authorized) (is_false r.live_providers_run)
          StateBlocker.readiness_schema StateBlocker.readiness_verdict
          StateBlocker.readiness_dispatch StateBlocker.readiness_live named,
    )

-- The second snapshot of a brief's route passes exactly if the brief passes the gate of its shape, no
-- label asks for a live provider, and the report on the architecture is ready; and it authorises no
-- dispatch even then.
pub build_state_snapshot_v2-pass :
    (brief : Text) (labels : List Text) (r : Readiness)
    → ((build_state_snapshot_v2 (route_brief brief labels) r).passes ≡ (
        not (shape_gate (classify brief).1 brief)
        && (not (mem live_provider labels) && is_ready r)))
      × ((build_state_snapshot_v2 (route_brief brief labels) r).dispatch_authorized ≡ false)
unfolding build_state_snapshot_v2 route_brief
build_state_snapshot_v2-pass brief labels r = (
  is_empty-state (route_brief brief labels).blockers r
      ∙ ap (λ b. b && is_ready r) (authorized_lem brief labels)
      ∙ and_assoc (not (shape_gate (classify brief).1 brief)) (not (mem live_provider labels))
          (is_ready r),
  refl,
)
