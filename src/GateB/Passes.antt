-- ===== src/GateB/Passes.antt =====
-- When `run_gate` of scripts/gate_b.py passes: which errors of the analysis a specification that the gate
-- itself has made can have.
use ao_operator.Base.{
  ℕ, ◌+◌, ◌≡◌, refl, ◌∙◌, ap, Bool, true, not, ◌&&◌, ◌||◌, List, [], ◌∷◌, ◌++◌, map, all, filter,
  arith, if◌then◌else◌,
}
use ao_operator.Base.Empty.{is_empty, is_empty-append}
use ao_operator.Text.{mem, first_of_each, Text, teq_refl}
use ao_operator.GateB.Paths.{concrete_path, render_slug}
use ao_operator.GateB.Slices.{RawSlice, validate_partition_slices}
use ao_operator.GateB.Spec.{
  Role, role_contract, role_contracts, role_artifact_of, spec_role, spec_contract,
  constitution_contract, lint_constitution, list_str, spec_role_errors, spec_roles_errors,
  spec_kit_analyze, AnalyzeError, error_if, run_gate,
}

all-filter : (p : Text → Bool) (l : List Text) → all p (filter p l) ≡ true
all-filter p [] = refl
all-filter p (t ∷ l) = ground (arith, all-filter p l)

all-first_of_each :
    (p : Text → Bool) (seen l : List Text) → all p l ≡ true → all p (first_of_each seen l) ≡ true
unfolding first_of_each
all-first_of_each p seen [] h = refl
all-first_of_each p seen (t ∷ l) h = ground (arith, h, all-first_of_each p (t ∷ seen) l)

-- A role has an id that no role before it has, and none of its writes is empty.
abbrev pub is_new : List Text → Role → Bool
is_new seen r = not (is_empty r.id) && (not (mem r.id seen) && list_str r.writes)

abbrev pub is_new_each : List Text → List Role → Bool
is_new_each seen [] = true
is_new_each seen (r ∷ roles) = let rest = is_new_each (r.id ∷ seen) roles in is_new seen r && rest

is_empty-checks :
    (a b c d e : Bool) (x y z v w : AnalyzeError)
    → d ≡ true
    → e ≡ true
    → is_empty (
        if a
        then x ∷ []
        else error_if b y ++ (error_if (not c) z ++ (if not d then v ∷ [] else error_if (not e) w)))
      ≡ (not a && (not b && c))
is_empty-checks a b c d e x y z v w h k = ground (arith, h, k)

-- The artifact of a role that the gate has specified is not empty, and is one of the allowed.
is_empty-spec_role :
    (slug : Text) (index : ℕ) (seen : List Text) (r : Role)
    → is_empty (spec_role_errors index seen (spec_role slug r)) ≡ is_new seen (role_contract slug r)
unfolding spec_role_errors spec_role role_contract role_artifact_of first_of_each
is_empty-spec_role slug index seen r =
    let artifact = role_artifact_of slug r.id in
    let paths =
      filter (λ t. not (is_empty t)) (map concrete_path (map (render_slug slug) r.writes)) in
    let allowed = first_of_each [] (artifact ∷ paths) in
    is_empty-checks (is_empty r.id) (mem r.id seen) (list_str (map (render_slug slug) r.writes))
      (list_str allowed) (mem artifact allowed) (AnalyzeError.id_required index)
      (AnalyzeError.duplicate_id index) (AnalyzeError.writes_type index)
      (AnalyzeError.allowed_type index) (AnalyzeError.allowed_missing index)
      (all-first_of_each (λ t. not (is_empty t)) [] (artifact ∷ paths)
        (all-filter (λ t. not (is_empty t)) (map concrete_path (map (render_slug slug) r.writes))))
      (ap (λ b. b || mem artifact (first_of_each (artifact ∷ []) paths)) (teq_refl artifact))

is_new-seen :
    (id : Text) (seen : List Text) (b : Bool) (f : List Text → Bool)
    → ((not (is_empty id) && b) && f (if is_empty id then seen else id ∷ seen))
      ≡ ((not (is_empty id) && b) && f (id ∷ seen))
is_new-seen [] seen b f = refl
is_new-seen (c ∷ id) seen b f = refl

is_empty-spec_roles :
    (slug : Text) (index : ℕ) (seen : List Text) (roles : List Role)
    → is_empty (spec_roles_errors index seen (map (spec_role slug) roles))
      ≡ is_new_each seen (role_contracts slug roles)
unfolding spec_roles_errors spec_role role_contract
is_empty-spec_roles slug index seen [] = refl
is_empty-spec_roles slug index seen (r ∷ roles) =
    let next = if is_empty r.id then seen else r.id ∷ seen in
    is_empty-append (spec_role_errors index seen (spec_role slug r))
      (spec_roles_errors (index + 1) next (map (spec_role slug) roles))
    ∙ cc (is_empty-spec_role slug index seen r, is_empty-spec_roles slug (index + 1) next roles)
    ∙ is_new-seen r.id seen (not (mem r.id seen) && list_str (role_contract slug r).writes)
        (λ l. is_new_each l (role_contracts slug roles))

constitution_clean : lint_constitution constitution_contract ≡ []
unfolding lint_constitution
constitution_clean = refl

is_empty-analyze :
    (slug : Text) (roles : List Role)
    → is_empty (
        if is_empty (map (spec_role slug) roles)
        then AnalyzeError.roles_empty ∷ []
        else spec_roles_errors 1 [] (map (spec_role slug) roles))
      ≡ (not (is_empty roles) && is_new_each [] (role_contracts slug roles))
is_empty-analyze slug [] = refl
is_empty-analyze slug (r ∷ roles) = is_empty-spec_roles slug 1 [] (r ∷ roles)

is_empty-contracts :
    (slug : Text) (roles : List Role) → is_empty (role_contracts slug roles) ≡ is_empty roles
is_empty-contracts slug [] = refl
is_empty-contracts slug (r ∷ roles) = refl

-- Gate B passes exactly if the intake and the profile have no error, there is a role, each role has an id
-- of its own and no empty write, with the slug put in, and the partition has no error.
pub run_gate-passes :
    (slug : Text) (intake_errors profile_errors : List Text) (roles : List Role)
    (raw_slices : List RawSlice)
    → (run_gate slug intake_errors profile_errors roles raw_slices).passes ≡ (
        is_empty intake_errors
        && (is_empty profile_errors
            && (not (is_empty roles)
                && is_new_each [] (role_contracts slug (role_contracts slug roles))
                && is_empty (validate_partition_slices slug raw_slices).errors)))
unfolding run_gate spec_kit_analyze spec_contract
run_gate-passes slug intake_errors profile_errors roles raw_slices =
    cc (is_empty-analyze slug (role_contracts slug roles), is_empty-contracts slug roles)
