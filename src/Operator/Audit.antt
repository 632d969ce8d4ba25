-- ===== src/Operator/Audit.antt =====
-- What the actions of scripts/operator_control.py authorise, record and overwrite.
use ao_operator.Base.{
  ◌≡◌, refl, sym, ap, ◌∙◌, Bool, true, false, not, ◌&&◌, some, List, [], ◌∷◌, ◌++◌, leb, arith,
  append-nil,
}
use ao_operator.Text.{teq}
use ao_operator.Operator.State.{approval_file_ok, accepted, is_blank, summarize}
use ao_operator.Operator.Control.{
  exists, read, Action, ControlError, Request, Line, Payload, World, entry, approval, status,
  submit, observe, cancel, base_payload, record_action, approval_errors, approval_file_payload,
  approve, perform, error_if,
}

-- The line that an action adds to the audit log, if it is asked to.
abbrev pub lines_of : Bool → Payload → List Line
lines_of false p = []
lines_of true p = entry p.control p.recent_audit ∷ []

record_action_lem :
    (audit : Bool) (w : World) (p : Payload)
    → ((record_action audit w p).1 ≡ p)
      × ((record_action audit w p).0.audit ≡ w.audit ++ lines_of audit p)
      × ((record_action audit w p).0.evidence ≡ w.evidence)
      × ((record_action audit w p).0.approval_file ≡ w.approval_file)
record_action_lem true w p = (refl, refl, refl, refl)
record_action_lem false w p = (refl, sym (append-nil w.audit), refl, refl)

approve_keeps :
    (w : World) (r : Request) (es : List ControlError)
    → ((approve w r es).0.audit ≡ w.audit) × ((approve w r es).0.evidence ≡ w.evidence)
approve_keeps w r [] = (ground arith, ground arith)
approve_keeps w r (e ∷ es) = (refl, refl)

-- Every action leaves the evidence alone and the audit log as it was, but for one line at its end,
-- the payload that the action returns, if it is asked to record it.
pub perform-audit :
    (audit : Bool) (a : Action) (w : World)
    → ((perform audit a w).0.audit ≡ w.audit ++ lines_of audit (perform audit a w).1)
      × ((perform audit a w).0.evidence ≡ w.evidence)
unfolding perform
perform-audit true (approval r) w =
    let k = approve_keeps w r (approval_errors w r) in
    (ap (λ (l : List Line). l ++ lines_of true (perform true (approval r) w).1) k.0, k.1)
perform-audit false (approval r) w =
    let k = approve_keeps w r (approval_errors w r) in (k.0 ∙ sym (append-nil w.audit), k.1)
perform-audit true status w = (refl, refl)
perform-audit true (submit s i) w = (refl, refl)
perform-audit true (observe n) w = (refl, refl)
perform-audit true (cancel t r) w = (refl, refl)
perform-audit false status w = (sym (append-nil w.audit), refl)
perform-audit false (submit s i) w = (sym (append-nil w.audit), refl)
perform-audit false (observe n) w = (sym (append-nil w.audit), refl)
perform-audit false (cancel t r) w = (sym (append-nil w.audit), refl)

approve-authorized :
    (w : World) (r : Request) (es : List ControlError)
    → (approve w r es).1.dispatch_authorized ≡ true
    → (es ≡ [])
      × ((summarize
            (approve w r es).0.evidence
            (read (approve w r es).0.approval_file)).dispatch_authorized
          ≡ true)
unfolding base_payload
approve-authorized w r [] h = (refl, h)
approve-authorized w r (e ∷ es) h = absurd (ground arith)

-- Only an approval authorises a live run: one without an error, after which the summary of the
-- evidence and of the approval file authorises it too.
pub perform-authorized :
    (audit : Bool) (a : Action) (w : World)
    → (perform audit a w).1.control.dispatch_authorized ≡ true
    → (r : Request) × (a ≡ approval r)
      × (approval_errors w r ≡ [])
      × ((summarize
            (perform audit a w).0.evidence
            (read (perform audit a w).0.approval_file)).dispatch_authorized
          ≡ true)
unfolding perform
perform-authorized true (approval r) w h =
    let (e, k) = approve-authorized w r (approval_errors w r) h in (r, refl, e, k)
perform-authorized false (approval r) w h =
    let (e, k) = approve-authorized w r (approval_errors w r) h in (r, refl, e, k)
perform-authorized true status w h = absurd (ground arith)
perform-authorized true (submit s i) w h = absurd (ground arith)
perform-authorized true (observe n) w h = absurd (ground arith)
perform-authorized true (cancel t r) w h = absurd (ground arith)
perform-authorized false status w h = absurd (ground arith)
perform-authorized false (submit s i) w h = absurd (ground arith)
perform-authorized false (observe n) w h = absurd (ground arith)
perform-authorized false (cancel t r) w h = absurd (ground arith)

error_if-false : (b : Bool) (e : ControlError) → error_if b e ≡ [] → b ≡ false
error_if-false true e h = absurd (ground arith)
error_if-false false e h = refl

file-perform :
    (audit : Bool) (r : Request) (w : World)
    → (perform audit (approval r) w).0.approval_file
      ≡ (approve w r (approval_errors w r)).0.approval_file
unfolding perform
file-perform true r w = refl
file-perform false r w = refl

left-nil {ℓ} : {A : Type ℓ} (xs ys : List A) → xs ++ ys ≡ [] → xs ≡ []
left-nil [] ys h = refl
left-nil (x ∷ xs) ys h = absurd (ground arith)

right-nil {ℓ} : {A : Type ℓ} (xs ys : List A) → xs ++ ys ≡ [] → ys ≡ []
right-nil [] ys h = h
right-nil (x ∷ xs) ys h = absurd (ground arith)

-- Without an error the approver is named, and no file is overwritten unasked.
approval_errors-nil :
    (w : World) (r : Request)
    → approval_errors w r ≡ []
    → (is_blank r.approved_by ≡ false)
      × ((r.write_approval_file && (exists w.approval_file && not r.overwrite)) ≡ false)
unfolding approval_errors
approval_errors-nil w r h = (
  error_if-false (is_blank r.approved_by) _ (left-nil _ _ h),
  error_if-false (r.write_approval_file && (exists w.approval_file && not r.overwrite)) _ (
      right-nil (error_if (leb 50 r.target_slices && not r.env_set) ControlError.env_required) _ (
        right-nil (error_if (is_blank r.approval_source) ControlError.approval_source_required) _
          (right-nil (error_if (is_blank r.approved_by) ControlError.approved_by_required) _ h))),
)

approve_file :
    (w : World) (r : Request) (es : List ControlError)
    → (es ≡ [] → r.write_approval_file ≡ false)
    → (approve w r es).0.approval_file ≡ w.approval_file
approve_file w r [] k = rw (k refl) refl
approve_file w r (e ∷ es) k = refl

-- An approval that is not told to overwrite leaves an approval file that is there as it is, whether the
-- file can be read or not.
pub approval_keeps :
    (audit : Bool) (r : Request) (w : World)
    → exists w.approval_file ≡ true
    → r.overwrite ≡ false
    → (perform audit (approval r) w).0.approval_file ≡ w.approval_file
approval_keeps audit r w h o =
    file-perform audit r w
    ∙ approve_file w r (approval_errors w r)
        λ none_found. let e = (approval_errors-nil w r none_found).1 in ground (arith, e, h, o)

payload_ok :
    (r : Request)
    → r.target_slices ≡ 50
    → r.target_tasks ≡ 107
    → is_blank r.approved_by ≡ false
    → approval_file_ok (some (approval_file_payload r)) ≡ (true, accepted)
unfolding approval_file_ok approval_file_payload teq
payload_ok r s t b = rw (s, t, b) refl

-- An approval for 50 slices and 107 tasks that meets no error and is told to write its file leaves a
-- file that the check of the approval accepts.
pub approval_file_ok-written :
    (audit : Bool) (r : Request) (w : World)
    → approval_errors w r ≡ []
    → r.write_approval_file ≡ true
    → r.target_slices ≡ 50
    → r.target_tasks ≡ 107
    → approval_file_ok (read (perform audit (approval r) w).0.approval_file) ≡ (true, accepted)
unfolding approval_file_payload
approval_file_ok-written audit r w h write slices tasks =
    ap (λ file. approval_file_ok (read file)) (file-perform audit r w)
    ∙ rw (h, write) (payload_ok r slices tasks (approval_errors-nil w r h).0)
