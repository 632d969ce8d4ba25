-- ===== src/GateR/Laws.antt =====
-- When scripts/gate_r.py passes.
use ao_operator.Base.{
  ℕ, ◌≡◌, ◌↔◌, refl, sym, ap, ◌∙◌, Bool, true, not, ◌&&◌, List, [], ◌∷◌, ◌++◌, all, length, arith,
}
use ao_operator.Base.Empty.{is_empty, is_empty-append, is_empty-nil}
use ao_operator.Text.{Text, codes, sort_texts}
use ao_operator.Dict.{Dict}
use ao_operator.GateR.Status.{status_result}
use ao_operator.GateR.Defs.{
  Handoff, GateBReport, PatchBundle, Tree, GateError, expected_role_artifacts, allowed_artifacts,
  slices_of, slice_role_id, is_success, error_if, body_of, name_of, patch_errors, terms_of,
  unmentioned, slice_errors, slices_errors, integrator_errors, integrator_contract, outputs_errors,
  unexpected_errors, run_gate,
}
use ao_operator.GateR.Complete.{
  is_complete, is_expected, is_present, is_mentioned, is_joined, are_joined, is_empty-outputs,
  is_empty-unexpected, all-sort_texts,
}

is_empty-unmentioned :
    (text : Text) (terms : List Text)
    → is_empty (unmentioned text terms) ≡ all (is_mentioned text) terms
unfolding unmentioned
is_empty-unmentioned text [] = refl
is_empty-unmentioned text (t ∷ terms) = ground (arith, is_empty-unmentioned text terms)

is_empty-parts :
    (name : Text) (patch : PatchBundle) (reviewed : Bool) (left writes : List Text)
    → is_empty (
        patch_errors name patch
        ++ (error_if (not reviewed) (GateError.reviewer_result name)
            ++ (elim left [ [] ↦ [] | t ∷ ts ↦ GateError.disposition name (t ∷ ts) ∷ [] ]
                ++ elim writes [ [] ↦ GateError.no_writes name ∷ [] | w ∷ ws ↦ [] ])))
      ≡ (is_present patch && (reviewed && (is_empty left && not (is_empty writes))))
is_empty-parts name patch reviewed left writes = ground arith

is_empty-slice :
    (tree : Tree) (slug : Text) (outputs : Dict Text) (n : ℕ) (item : Handoff)
    → is_empty (slice_errors tree slug outputs n item) ≡ is_joined tree slug outputs n item
unfolding slice_errors
is_empty-slice tree slug outputs n item =
    let implementer = slice_role_id (codes "implementer-slice") item outputs n in
    let reviewer = slice_role_id (codes "reviewer-slice") item outputs n in
    let body = body_of tree slug (codes "integrator") in
    let terms = terms_of implementer reviewer item in
    is_empty-parts (name_of item) (tree.patch implementer)
      (is_success (status_result (body_of tree slug reviewer))) (unmentioned body terms) item.writes
    ∙ ap
        (λ b.
          is_present (tree.patch implementer)
          && (is_success (status_result (body_of tree slug reviewer))
              && (b && not (is_empty item.writes))))
        (is_empty-unmentioned body terms)

is_empty-slices :
    (tree : Tree) (slug : Text) (outputs : Dict Text) (n : ℕ) (items : List Handoff)
    → is_empty (slices_errors tree slug outputs n items) ≡ all (is_joined tree slug outputs n) items
unfolding slices_errors
is_empty-slices tree slug outputs n [] = refl
is_empty-slices tree slug outputs n (item ∷ items) =
    is_empty-append (slice_errors tree slug outputs n item)
      (slices_errors tree slug outputs n items)
    ∙ cc (is_empty-slice tree slug outputs n item, is_empty-slices tree slug outputs n items)

is_empty-integrator :
    (body result : Text)
    → is_empty (integrator_errors body result) ≡ (not (is_empty body) && is_success result)
is_empty-integrator body result = ground arith

is_empty-contract :
    (tree : Tree) (slug : Text) (items : List Handoff) (outputs : Dict Text)
    → is_empty (integrator_contract tree slug items outputs) ≡ are_joined tree slug outputs items
unfolding integrator_contract
is_empty-contract tree slug [] outputs = refl
is_empty-contract tree slug (item ∷ items) outputs =
    let body = body_of tree slug (codes "integrator") in
    let n = length (item ∷ items) in
    is_empty-append (integrator_errors body (status_result body))
      (slices_errors tree slug outputs n (item ∷ items))
    ∙ ground (
      arith,
      is_empty-integrator body (status_result body),
      is_empty-slices tree slug outputs n (item ∷ items),
    )

is_empty-first :
    (d : Dict Text)
    → is_empty (elim d [ [] ↦ GateError.no_role_contracts ∷ [] | e ∷ es ↦ [] ]) ≡ not (is_empty d)
is_empty-first [] = refl
is_empty-first (e ∷ d) = refl

is_empty-run_gate :
    (tree : Tree) (slug : Text) (gate_b : GateBReport)
    → is_empty (run_gate tree slug gate_b) ≡ (
        not (is_empty (expected_role_artifacts gate_b slug))
        && (all
              (is_complete tree (allowed_artifacts gate_b slug))
              (expected_role_artifacts gate_b slug)
            && (all (is_expected slug (expected_role_artifacts gate_b slug)) tree.role_files
                && are_joined tree slug (expected_role_artifacts gate_b slug) (slices_of gate_b))))
unfolding run_gate
is_empty-run_gate tree slug gate_b =
    let outputs = expected_role_artifacts gate_b slug in
    let unexpected = unexpected_errors slug outputs (sort_texts tree.role_files) in
    let joined = integrator_contract tree slug (slices_of gate_b) outputs in
    let rest =
      outputs_errors tree (allowed_artifacts gate_b slug) outputs ++ (unexpected ++ joined) in
    is_empty-append (elim outputs [ [] ↦ GateError.no_role_contracts ∷ [] | e ∷ es ↦ [] ]) rest
    ∙ cc (
      is_empty-first outputs,
      is_empty-append (outputs_errors tree (allowed_artifacts gate_b slug) outputs)
          (unexpected ++ joined),
      is_empty-outputs tree (allowed_artifacts gate_b slug) outputs,
      is_empty-append unexpected joined,
      is_empty-unexpected slug outputs (sort_texts tree.role_files),
      all-sort_texts (is_expected slug outputs) tree.role_files,
      is_empty-contract tree slug (slices_of gate_b) outputs,
    )

-- Gate R passes exactly if Gate B's report names an output; every output is there, with a result that
-- is no failure and an artifact that is allowed if it is a path; no other role artifact is there; and,
-- with slices, the integrator succeeded and each slice has its patch, its writes, a successful reviewer,
-- and the integrator's mention of all of them.
pub run_gate-nil :
    (tree : Tree) (slug : Text) (gate_b : GateBReport)
    → (run_gate tree slug gate_b ≡ []) ↔ (
        (not (is_empty (expected_role_artifacts gate_b slug))
          && (all
                (is_complete tree (allowed_artifacts gate_b slug))
                (expected_role_artifacts gate_b slug)
              && (all (is_expected slug (expected_role_artifacts gate_b slug)) tree.role_files
                  && are_joined tree slug
                      (expected_role_artifacts gate_b slug)
                      (slices_of gate_b))))
        ≡ true)
run_gate-nil tree slug gate_b =
    let e = is_empty-run_gate tree slug gate_b in
    let nil = is_empty-nil (run_gate tree slug gate_b) in (λ h. sym e ∙ nil.0 h, λ h. nil.1 (e ∙ h))
