-- ===== src/GateB/Profiled.antt =====
-- Gate B with a valid profile: its own analysis of the roles finds nothing more.
use ao_operator.Base.{
  ℕ, ◌+◌, ◌≡◌, refl, sym, ◌∙◌, ap, Bool, true, false, not, ◌&&◌, Option, none, some, List, [], ◌∷◌,
  ◌++◌, map, length, if◌then◌else◌, arith, Bool-cases, inl, inr,
}
use ao_operator.Base.Empty.{is_empty, is_empty-append}
use ao_operator.Text.{Text, codes, mem, remove_prefix}
use ao_operator.GateB.Paths.{slug_mark, replace_from, render_slug}
use ao_operator.GateB.Slices.{RawSlice, or_empty, validate_partition_slices}
use ao_operator.GateB.Spec.{Role, role_contract, role_contracts, list_str, run_gate}
use ao_operator.GateB.Passes.{is_new_each, run_gate-passes}
use ao_operator.GateB.Profile.{
  Items, ProfileRole, ProfileFile, invalid_json, not_object, profile, ProfileError, error_if,
  is_list_str, field_errors, roles_errors, all_roles_errors, posture_errors, is_schema,
  validate_profile, texts_in, read_roles, read_given, roles_of,
}

is_empty-replaced :
    (c d : ℕ) (slug s : Text) (f : Text → Text) (o : Option Text)
    → is_empty (elim o [ none ↦ c ∷ s | some rest ↦ (d ∷ slug) ++ f rest ]) ≡ false
is_empty-replaced c d slug s f none = refl
is_empty-replaced c d slug s f (some rest) = refl

-- A slug that is not empty keeps a text that is not empty from being so.
is_empty-render : (d : ℕ) (slug t : Text) → is_empty (render_slug (d ∷ slug) t) ≡ is_empty t
unfolding render_slug replace_from
is_empty-render d slug [] = refl
is_empty-render d slug (c ∷ t) =
    is_empty-replaced c d slug (replace_from (length t) slug_mark (d ∷ slug) t)
      (replace_from (length t) slug_mark (d ∷ slug)) (remove_prefix slug_mark (c ∷ t))

list_str-render :
    (d : ℕ) (slug : Text) (l : List Text) → list_str (map (render_slug (d ∷ slug)) l) ≡ list_str l
list_str-render d slug [] = refl
list_str-render d slug (t ∷ l) = cc (is_empty-render d slug t, list_str-render d slug l)

is_new_each-contracts :
    (d : ℕ) (slug : Text) (seen : List Text) (roles : List Role)
    → is_new_each seen (role_contracts (d ∷ slug) roles) ≡ is_new_each seen roles
unfolding role_contract
is_new_each-contracts d slug seen [] = refl
is_new_each-contracts d slug seen (r ∷ roles) =
    cc (list_str-render d slug r.writes, is_new_each-contracts d slug (r.id ∷ seen) roles)

list_str-texts : (i : Items) → is_list_str i ≡ true → list_str (texts_in i) ≡ true
list_str-texts none h = absurd (ground arith)
list_str-texts (some []) h = refl
list_str-texts (some (none ∷ l)) h = absurd (ground arith)
list_str-texts (some (some t ∷ l)) h = ground (arith, h, list_str-texts (some l))

is_empty-round :
    (a b : Bool) (e x : ProfileError) (skipped fields rest : List ProfileError)
    → is_empty (if a then e ∷ skipped else error_if b x ++ (fields ++ rest))
      ≡ (not a && (not b && (is_empty fields && is_empty rest)))
is_empty-round true b e x skipped fields rest = refl
is_empty-round false true e x skipped fields rest = refl
is_empty-round false false e x skipped fields rest = is_empty-append fields rest

field_errors-writes :
    (index : ℕ) (r : ProfileRole)
    → is_empty (field_errors index r) ≡ true
    → is_list_str r.writes ≡ true
field_errors-writes index r h = elim (Bool-cases (is_list_str r.writes)) [
  | inl fine ↦ fine
  | inr bad ↦ absurd (ground (arith, h, bad))
]

roles_errors-new :
    (index : ℕ) (seen : List Text) (roles : List (Option ProfileRole))
    → is_empty (roles_errors index seen roles) ≡ true
    → is_new_each seen (read_roles roles) ≡ true
unfolding roles_errors
roles_errors-new index seen [] h = refl
roles_errors-new index seen (none ∷ roles) h = absurd (ground arith)
roles_errors-new index seen (some r ∷ roles) h =
    let id = or_empty r.id in
    let fields = field_errors index r in
    let rest = roles_errors (index + 1) (id ∷ seen) roles in
    let fine =
      sym (
        is_empty-round (is_empty id) (mem id seen) (ProfileError.role_id index)
          (ProfileError.role_duplicate index) (roles_errors (index + 1) seen roles) fields rest)
      ∙ h in
    let fields_fine : is_empty fields ≡ true = ground (arith, fine) in
    let rest_fine : is_empty rest ≡ true = ground (arith, fine) in
    ground (
      arith,
      fine,
      list_str-texts r.writes (field_errors-writes index r fields_fine),
      roles_errors-new (index + 1) (id ∷ seen) roles rest_fine,
    )

-- A list of roles that gives a role for its first.
roles_errors-first :
    (roles : List (Option ProfileRole))
    → is_empty (all_roles_errors (some roles)) ≡ true
    → (not (is_empty (read_roles roles)) && is_new_each [] (read_roles roles)) ≡ true
unfolding all_roles_errors roles_errors
roles_errors-first [] h = absurd (ground arith)
roles_errors-first (none ∷ roles) h = absurd (ground arith)
roles_errors-first (some r ∷ roles) h = roles_errors-new 1 [] (some r ∷ roles) h

given-roles :
    (o : Option (List (Option ProfileRole)))
    → is_empty (all_roles_errors o) ≡ true
    → (not (is_empty (read_given o)) && is_new_each [] (read_given o)) ≡ true
unfolding all_roles_errors
given-roles none h = absurd (ground arith)
given-roles (some roles) h = roles_errors-first roles h

middle : (xs ys zs : List ProfileError) → is_empty (xs ++ (ys ++ zs)) ≡ true → is_empty ys ≡ true
middle [] [] zs h = refl
middle [] (y ∷ ys) zs h = absurd (ground arith)
middle (x ∷ xs) ys zs h = absurd (ground arith)

validate_profile-roles :
    (file : ProfileFile)
    → validate_profile file ≡ []
    → (not (is_empty (roles_of file)) && is_new_each [] (roles_of file)) ≡ true
unfolding validate_profile
validate_profile-roles invalid_json h = absurd (ground (arith, ap is_empty h))
validate_profile-roles not_object h = absurd (ground (arith, ap is_empty h))
validate_profile-roles (profile p) h = given-roles p.roles (
    middle
      (error_if (not (is_schema (codes "ao-operator/profile/v1") p.schema))
        ProfileError.profile_schema)
      (all_roles_errors p.roles) (posture_errors p.policy_posture) (ap is_empty h))

-- With a profile that validate_profile accepts and a slug that is not empty, Gate B passes exactly if the
-- intake and the partition have no error.
pub run_gate-profile :
    (slug : Text) (intake_errors : List Text) (file : ProfileFile) (raw_slices : List RawSlice)
    → is_empty slug ≡ false
    → validate_profile file ≡ []
    → (run_gate slug intake_errors [] (roles_of file) raw_slices).passes
      ≡ (is_empty intake_errors && is_empty (validate_partition_slices slug raw_slices).errors)
run_gate-profile [] intake_errors file raw_slices named valid = absurd (ground arith)
run_gate-profile (d ∷ slug) intake_errors file raw_slices named valid =
    let roles = roles_of file in
    let fine = validate_profile-roles file valid in
    let contracts =
      is_new_each-contracts d slug [] (role_contracts (d ∷ slug) roles)
      ∙ is_new_each-contracts d slug [] roles in
    let partition = is_empty (validate_partition_slices (d ∷ slug) raw_slices).errors in
    run_gate-passes (d ∷ slug) intake_errors [] roles raw_slices
    ∙ ap (λ b. is_empty intake_errors && (not (is_empty roles) && b && partition)) contracts
    ∙ ap (λ b. is_empty intake_errors && (b && partition)) fine
