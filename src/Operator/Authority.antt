-- ===== src/Operator/Authority.antt =====
-- What scripts/summarize_50_slice_operator_state.py takes to authorise a live run.
use ao_operator.Base.{
  ◌≡◌, refl, ◌∙◌, Bool, true, false, not, ◌&&◌, ◌||◌, Option, List, [], ◌∷◌, ◌++◌, if◌then◌else◌,
  all, arith, Bool-cases, inl, inr,
}
use ao_operator.Text.{Text, codes, teq}
use ao_operator.Operator.State.{
  Approval, Evidence, Message, Blocker, approval_file_ok, pass_verdict, unless, blockers_of,
  last_blockers, is_approval, is_empty, route_of, accepted_50_live, accepted_state,
  ready_for_approval, ready_for_live, state_of, summarize,
}

-- All the reports that a live run needs are there and say PASS.
abbrev pub is_prepared : Evidence → Bool
is_prepared e =
    pass_verdict e.prep_report
    && pass_verdict e.provider_budget
    && pass_verdict e.approval_gate
    && pass_verdict e.rehearsal
    && pass_verdict e.postrun_route
    && pass_verdict e.accepted_25_live

abbrev pub is_awaited : Evidence → Bool
is_awaited e =
    teq (route_of e.route) (codes "WAIT_FOR_50_SLICE_LIVE_RUN")
    || teq (route_of e.route) ready_for_live

is_empty-unless :
    (b : Bool) (x : Blocker) (l : List Blocker) → is_empty (unless b x ++ l) ≡ (b && is_empty l)
is_empty-unless true x l = refl
is_empty-unless false x l = refl

is_empty-last : (b : Bool) (x : Blocker) → is_empty (unless b x) ≡ b
is_empty-last true x = refl
is_empty-last false x = refl

is_empty-blockers_of :
    (e : Evidence) (approved : Bool) (m : Message)
    → is_empty (blockers_of e (approved, m)) ≡ (is_prepared e && approved)
unfolding blockers_of
is_empty-blockers_of e approved m = simp (is_empty-unless, is_empty-last) (ground arith)

last-unless :
    (b : Bool) (x : Blocker) (l : List Blocker) (m : Message)
    → last_blockers l ≡ Blocker.approval m ∷ []
    → last_blockers (unless b x ++ l) ≡ Blocker.approval m ∷ []
unfolding last_blockers
last-unless true x l m h = h
last-unless false x [] m h = absurd (ground arith)
last-unless false x (c ∷ l) m h = h

-- Without an approval its message is the last blocker.
last-blockers_of :
    (e : Evidence) (m : Message)
    → last_blockers (blockers_of e (false, m)) ≡ Blocker.approval m ∷ []
unfolding blockers_of last_blockers
last-blockers_of e m = last-unless (pass_verdict e.prep_report) Blocker.prep_missing _ m (
    last-unless (pass_verdict e.provider_budget) Blocker.budget_missing _ m (
      last-unless (pass_verdict e.approval_gate) Blocker.gate_missing _ m (
        last-unless (pass_verdict e.rehearsal) Blocker.rehearsal_missing _ m (
          last-unless (pass_verdict e.postrun_route) Blocker.postrun_missing _ m
            (last-unless (pass_verdict e.accepted_25_live) Blocker.live_not_pass _ m refl)))))

state_of-unapproved :
    (e : Evidence) (bs : List Blocker) (m : Message)
    → accepted_50_live e ≡ false
    → is_empty bs ≡ false
    → last_blockers bs ≡ Blocker.approval m ∷ []
    → state_of e false bs ≡ ready_for_approval
unfolding state_of
state_of-unapproved e bs m k n l = rw (k, n, l) refl

state_of-checked :
    (e : Evidence) (checked : Bool × Message)
    → checked.0 ≡ false
    → accepted_50_live e ≡ false
    → state_of e checked.0 (blockers_of e checked) ≡ ready_for_approval
state_of-checked e (true, m) h k = absurd (ground arith)
state_of-checked e (false, m) h k =
    state_of-unapproved e (blockers_of e (false, m)) m k
      (let n = is_empty-blockers_of e false m in ground (arith, n)) (last-blockers_of e m)

passes-ready :
    (t : Text)
    → t ≡ ready_for_approval
    → (teq t ready_for_approval || (teq t ready_for_live || teq t accepted_state)) ≡ true
unfolding teq
passes-ready t h = rw h refl

-- Without an approval and an accepted 50-slice run, the state is the one that asks for an approval,
-- and the summary passes, whatever of the prepared evidence is missing: only the last blocker counts.
pub summarize-unapproved :
    (e : Evidence) (file : Option Approval)
    → (approval_file_ok file).0 ≡ false
    → accepted_50_live e ≡ false
    → ((summarize e file).current_state ≡ ready_for_approval) × ((summarize e file).passes ≡ true)
unfolding summarize
summarize-unapproved e file h k =
    let ready = state_of-checked e (approval_file_ok file) h k in (ready, passes-ready _ ready)

if-ready :
    (b : Bool) (t : Text)
    → teq (if b then ready_for_live else t) ready_for_live ≡ b || teq t ready_for_live
unfolding teq
if-ready true t = refl
if-ready false t = refl

state_of-approved :
    (e : Evidence) (bs : List Blocker)
    → teq (state_of e true bs) ready_for_live
      ≡ (is_empty bs && (not (accepted_50_live e) && is_awaited e))
unfolding state_of teq
state_of-approved e bs = elim (Bool-cases (accepted_50_live e)) [
  | inl done ↦ rw done (ground arith)
  | inr live ↦ rw live (go bs)
]
  where
    go :
        (l : List Blocker)
        → teq
            (if not (is_empty l) && (false && all is_approval (last_blockers l))
              then ready_for_approval
              else if not (is_empty l)
              then codes "BLOCKED"
              else if teq (route_of e.route) (codes "WAIT_FOR_50_SLICE_LIVE_RUN")
              then ready_for_live
              else route_of e.route)
            ready_for_live
          ≡ (is_empty l && is_awaited e)
    go [] =
        if-ready (teq (route_of e.route) (codes "WAIT_FOR_50_SLICE_LIVE_RUN")) (route_of e.route)
    go (b ∷ l) = refl

checked-authorized :
    (e : Evidence) (checked : Bool × Message)
    → (checked.0 && teq (state_of e checked.0 (blockers_of e checked)) ready_for_live)
      ≡ (checked.0 && (is_prepared e && (not (accepted_50_live e) && is_awaited e)))
checked-authorized e (false, m) = refl
checked-authorized e (true, m) =
    let n = is_empty-blockers_of e true m in
    state_of-approved e (blockers_of e (true, m)) ∙ ground (arith, n)

-- A live run is authorised exactly if the approval file is in order, every report says PASS, the run
-- is not accepted yet, and the route waits for it.
pub summarize-authorized :
    (e : Evidence) (file : Option Approval)
    → (summarize e file).dispatch_authorized
      ≡ ((approval_file_ok file).0 && (is_prepared e && (not (accepted_50_live e) && is_awaited e)))
unfolding summarize
summarize-authorized e file = checked-authorized e (approval_file_ok file)
