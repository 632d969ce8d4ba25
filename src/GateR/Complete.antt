-- ===== src/GateR/Complete.antt =====
-- When the outputs of the roles leave no error in scripts/gate_r.py.
use ao_operator.Base.{
  ℕ, ◌≡◌, refl, ap, ◌∙◌, Bool, true, false, not, ◌&&◌, ◌||◌, Option, none, some, List, [], ◌∷◌, any,
  all, length, arith, Bool-cases, inl, inr,
}
use ao_operator.Base.Empty.{is_empty, is_empty-append}
use ao_operator.Text.{Text, codes, teq, contains, sort_texts, insert_text}
use ao_operator.Dict.{Dict, get}
use ao_operator.GateR.Status.{status_result, status_artifact, artifact_is_concrete_path}
use ao_operator.GateR.Defs.{
  Handoff, PatchBundle, present, Tree, role_path, slice_role_id, is_success, is_failure, body_of,
  missing_output, terms_of, status_errors, or_none_allowed, output_errors, outputs_errors,
  unexpected_errors,
}

-- A body that ends a role well: a result that is no failure, and an artifact that, if it is a path, is
-- one of the allowed.
abbrev pub is_status_fine : List Text → Text → Text → Bool
is_status_fine allowed result artifact =
    not (is_empty result)
    && (not (is_failure result)
        && (not (is_empty artifact)
            && (not (artifact_is_concrete_path artifact) || any (teq artifact) allowed)))

-- The output is there, with a body that ends the role well.
abbrev pub is_complete : Tree → Dict (List Text) → Text × Text → Bool
is_complete tree allowed (id, output) = elim (tree.file output) [
  | none ↦ false
  | some body ↦
      is_status_fine (or_none_allowed (get id allowed)) (status_result body) (status_artifact body)
]

abbrev pub is_expected : Text → Dict Text → Text → Bool
is_expected slug outputs path = any (λ (e : Text × Text). teq path (role_path slug e.0)) outputs

abbrev pub is_present : PatchBundle → Bool
is_present present = true
is_present _ = false

abbrev pub is_mentioned : Text → Text → Bool
is_mentioned text t = not (is_empty t) && contains t text

-- The slice has its patch, a reviewer that succeeded, writes, and a mention of all of it by the
-- integrator.
abbrev pub is_joined : Tree → Text → Dict Text → ℕ → Handoff → Bool
is_joined tree slug outputs n item =
    let implementer = slice_role_id (codes "implementer-slice") item outputs n in
    let reviewer = slice_role_id (codes "reviewer-slice") item outputs n in
    is_present (tree.patch implementer)
    && (is_success (status_result (body_of tree slug reviewer))
        && (all (is_mentioned (body_of tree slug (codes "integrator")))
              (terms_of implementer reviewer item)
            && not (is_empty item.writes)))

abbrev pub are_joined : Tree → Text → Dict Text → List Handoff → Bool
are_joined tree slug outputs [] = true
are_joined tree slug outputs (item ∷ items) =
    not (is_empty (body_of tree slug (codes "integrator")))
    && (is_success (status_result (body_of tree slug (codes "integrator")))
        && all (is_joined tree slug outputs (length (item ∷ items))) (item ∷ items))

is_empty-status :
    (id : Text) (allowed : List Text) (result artifact : Text)
    → is_empty (status_errors id allowed result artifact) ≡ is_status_fine allowed result artifact
is_empty-status id allowed result artifact = ground arith

is_empty-output :
    (tree : Tree) (allowed : Dict (List Text)) (e : Text × Text)
    → is_empty (output_errors tree allowed e) ≡ is_complete tree allowed e
unfolding output_errors
is_empty-output tree allowed (id, output) = is_empty-output_of (tree.file output)
  where
    is_empty-output_of :
        (o : Option Text)
        → is_empty (elim o [
          | none ↦ missing_output id ∷ []
          | some body ↦
              status_errors id
                (or_none_allowed (get id allowed))
                (status_result body)
                (status_artifact body)
        ])
          ≡ elim o [
            | none ↦ false
            | some body ↦
                is_status_fine
                  (or_none_allowed (get id allowed))
                  (status_result body)
                  (status_artifact body)
          ]
    is_empty-output_of none = refl
    is_empty-output_of (some body) =
        is_empty-status id (or_none_allowed (get id allowed)) (status_result body)
          (status_artifact body)

pub is_empty-outputs :
    (tree : Tree) (allowed : Dict (List Text)) (outputs : Dict Text)
    → is_empty (outputs_errors tree allowed outputs) ≡ all (is_complete tree allowed) outputs
unfolding outputs_errors
is_empty-outputs tree allowed [] = refl
is_empty-outputs tree allowed (e ∷ outputs) =
    is_empty-append (output_errors tree allowed e) (outputs_errors tree allowed outputs)
    ∙ cc (is_empty-output tree allowed e, is_empty-outputs tree allowed outputs)

pub is_empty-unexpected :
    (slug : Text) (outputs : Dict Text) (paths : List Text)
    → is_empty (unexpected_errors slug outputs paths) ≡ all (is_expected slug outputs) paths
unfolding unexpected_errors
is_empty-unexpected slug outputs [] = refl
is_empty-unexpected slug outputs (p ∷ paths) = elim (Bool-cases (is_expected slug outputs p)) [
  | inl known ↦ rw (unexpected_errors, known) (is_empty-unexpected slug outputs paths)
  | inr other ↦ rw (unexpected_errors, other) refl
]

all-insert_text :
    (p : Text → Bool) (t : Text) (l : List Text) → all p (insert_text t l) ≡ (p t && all p l)
unfolding insert_text
all-insert_text p t [] = refl
all-insert_text p t (u ∷ l) = ground (arith, all-insert_text p t l)

pub all-sort_texts : (p : Text → Bool) (l : List Text) → all p (sort_texts l) ≡ all p l
unfolding sort_texts
all-sort_texts p [] = refl
all-sort_texts p (t ∷ l) =
    all-insert_text p t (sort_texts l) ∙ ap (λ b. p t && b) (all-sort_texts p l)
