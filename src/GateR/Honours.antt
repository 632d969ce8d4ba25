-- ===== src/GateR/Honours.antt =====
-- Gate R on a report of Gate B: what the specification allows a role is no drift.
use ao_operator.Base.{
  ◌≡◌, refl, ◌∙◌, ap, true, false, Option, none, some, List, [], ◌∷◌, ◌++◌, map, if◌then◌else◌,
  arith, Bool-cases, inl, inr,
}
use ao_operator.Base.Empty.{is_empty}
use ao_operator.Text.{Text, teq, mem, teq_refl, teq_iff, teq→eq}
use ao_operator.Dict.{Dict, get, set, get-set_self, get-set_ne}
use ao_operator.GateB.Slices.{NormalSlice, Partition}
use ao_operator.GateB.Spec.{Role, SpecRole, Spec, spec_role, spec_contract}
use ao_operator.GateB.Passes.{is_new, is_new_each}
use ao_operator.GateR.Defs.{
  Handoff, GateBReport, Tree, allowed_from, allowed_artifacts, is_failure, or_none_allowed,
  status_errors, output_errors,
}
use ao_operator.GateR.Status.{status_result, status_artifact}

abbrev pub pair_of : SpecRole → Text × Option (List Text)
pair_of s = (s.role.id, some s.allowed_artifacts)

abbrev pub handoff_of : NormalSlice → Handoff
handoff_of n = record { id = n.id; slice_id = some n.slice_id; writes = n.writes }

abbrev pub report_of : Spec → GateBReport
report_of spec = record {
  role_artifacts = some spec.role_artifacts;
  spec_roles = some (map pair_of spec.roles);
  role_contracts = map (λ (s : SpecRole). s.role.id) spec.roles;
  spec_slices = some (map handoff_of spec.partition_slices);
  partition_slices = none;
}

abbrev ids : List Role → List Text
ids roles = map (λ (r : Role). r.id) roles

flip : (a b : Text) → teq a b ≡ false → teq b a ≡ false
flip a b h = ground (arith, h, teq_iff a b, teq_iff b a)

apart_lem :
    (a b : Text) (seen : List Text) → mem a seen ≡ true → mem b seen ≡ false → teq a b ≡ false
apart_lem a b seen old new = elim (Bool-cases (teq a b)) [
  | inl same ↦ absurd (ground (arith, old, new, ap (λ t. mem t seen) (teq→eq a b same)))
  | inr other ↦ other
]

get-kept :
    (id j : Text) (d : Dict (List Text)) (l : List Text)
    → teq id j ≡ false
    → get id (if is_empty j then d else set j l d) ≡ get id d
get-kept id [] d l h = refl
get-kept id (c ∷ j) d l h = get-set_ne (c ∷ j) id l d (flip id (c ∷ j) h)

get-named :
    (id : Text) (d : Dict (List Text)) (l : List Text)
    → is_empty id ≡ false
    → get id (if is_empty id then d else set id l d) ≡ some l
get-named [] d l h = absurd (ground arith)
get-named (c ∷ id) d l h = get-set_self (c ∷ id) l d

module _ (slug : Text) where
  abbrev pairs : List Role → List (Text × Option (List Text))
  pairs roles = map pair_of (map (spec_role slug) roles)

  get-allowed_from :
      (id : Text) (d : Dict (List Text)) (roles : List Role)
      → mem id (ids roles) ≡ false
      → get id (allowed_from d (pairs roles)) ≡ get id d
  unfolding allowed_from spec_role
  get-allowed_from id d [] h = refl
  get-allowed_from id d (r ∷ roles) h =
      let later : mem id (ids roles) ≡ false = ground (arith, h) in
      let apart : teq id r.id ≡ false = ground (arith, h) in
      get-allowed_from id
        (if is_empty r.id then d else set r.id (spec_role slug r).allowed_artifacts d) roles later
      ∙ get-kept id r.id d (spec_role slug r).allowed_artifacts apart

  new-mem :
      (id : Text) (seen : List Text) (roles : List Role)
      → mem id seen ≡ true
      → is_new_each seen roles ≡ true
      → mem id (ids roles) ≡ false
  new-mem id seen [] old h = refl
  new-mem id seen (r ∷ roles) old h =
      let later : is_new_each (r.id ∷ seen) roles ≡ true = ground (arith, h) in
      let new : mem r.id seen ≡ false = ground (arith, h) in
      let still : mem id (r.id ∷ seen) ≡ true = ground (arith, old) in
      ground (arith, new-mem id (r.id ∷ seen) roles still later, apart_lem id r.id seen old new)

  -- A role of a specification, each role of which has an id of its own, is allowed what it was specified.
  get-allowed :
      (d : Dict (List Text)) (seen : List Text) (before after : List Role) (r : Role)
      → is_new_each seen (before ++ r ∷ after) ≡ true
      → get r.id (allowed_from d (pairs (before ++ r ∷ after)))
        ≡ some (spec_role slug r).allowed_artifacts
  unfolding allowed_from spec_role
  get-allowed d seen [] after r h =
      let allowed = (spec_role slug r).allowed_artifacts in
      let first : is_new seen r ≡ true = ground (arith, h) in
      let later : is_new_each (r.id ∷ seen) after ≡ true = ground (arith, h) in
      let seen_r : mem r.id (r.id ∷ seen) ≡ true = ground (arith, teq_refl r.id) in
      get-allowed_from r.id (if is_empty r.id then d else set r.id allowed d) after
        (new-mem r.id (r.id ∷ seen) after seen_r later)
      ∙ get-named r.id d allowed (ground (arith, first))
  get-allowed d seen (b ∷ before) after r h =
      let later : is_new_each (b.id ∷ seen) (before ++ r ∷ after) ≡ true = ground (arith, h) in
      get-allowed (if is_empty b.id then d else set b.id (spec_role slug b).allowed_artifacts d)
        (b.id ∷ seen) before after r later

status_errors-nil :
    (id : Text) (allowed : List Text) (result artifact : Text)
    → is_empty result ≡ false
    → is_failure result ≡ false
    → is_empty artifact ≡ false
    → mem artifact allowed ≡ true
    → status_errors id allowed result artifact ≡ []
status_errors-nil id allowed result artifact h k l m = ground (arith, h, k, l, m)

output_errors-found :
    (tree : Tree) (allowed : Dict (List Text)) (id output body : Text)
    → tree.file output ≡ some body
    → output_errors tree allowed (id, output)
      ≡ status_errors id
          (or_none_allowed (get id allowed))
          (status_result body)
          (status_artifact body)
unfolding output_errors
output_errors-found tree allowed id output body there = rw (output_errors, there) refl

-- Gate R finds no error in the artifact of a role that Gate B has specified, each role having an id of its
-- own, if the artifact has a result that is no failure and names a path that the specification allows.
pub output_errors-honoured :
    (slug : Text) (before after : List Role) (r : Role) (partition : Partition) (tree : Tree)
    (output body : Text)
    → is_new_each [] (before ++ r ∷ after) ≡ true
    → tree.file output ≡ some body
    → is_empty (status_result body) ≡ false
    → is_failure (status_result body) ≡ false
    → is_empty (status_artifact body) ≡ false
    → mem (status_artifact body) (spec_role slug r).allowed_artifacts ≡ true
    → output_errors tree
        (allowed_artifacts (report_of (spec_contract slug (before ++ r ∷ after) partition)) slug)
        (r.id, output)
      ≡ []
unfolding allowed_artifacts spec_contract
output_errors-honoured slug before after r partition tree output body fresh there result fine
      artifact allowed =
    let roles = before ++ r ∷ after in
    let by_role = allowed_artifacts (report_of (spec_contract slug roles partition)) slug in
    output_errors-found tree by_role r.id output body there
    ∙ ap (λ o. status_errors r.id (or_none_allowed o) (status_result body) (status_artifact body))
        (get-allowed slug [] [] before after r fresh)
    ∙ status_errors-nil r.id (spec_role slug r).allowed_artifacts (status_result body)
        (status_artifact body) result fine artifact allowed
