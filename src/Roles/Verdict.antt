-- ===== src/Roles/Verdict.antt =====
-- When scripts/factory_run.py blocks a run.
use ao_operator.Base.{
  ℕ, ◌≡◌, ◌↔◌, refl, sym, ◌∙◌, ap, Bool, true, false, not, ◌&&◌, ◌||◌, Option, none, some, List, [],
  ◌∷◌, ◌++◌, ◌==◌, if◌then◌else◌, any, all, arith,
}
use ao_operator.Base.Empty.{is_empty, is_empty-append, is_empty-nil}
use ao_operator.Text.{Text, contains, teq}
use ao_operator.Dict.{Dict, get}
use ao_operator.Roles.Ids.{RoleResult, is_mutator_task, slice_family}
use ao_operator.Roles.Quorum.{aggregated_role_results}
use ao_operator.Roles.Runtime.{
  Bundle, Blocker, succeeded, load_bearing_failed, marker, when, bundle_blockers, task_blockers,
  tasks_blockers, runtime_blockers,
}

-- The evidence of a mutator: a captured status, and a diff or a success.
abbrev pub has_evidence : Option Bundle → Option RoleResult → Bool
has_evidence none r = false
has_evidence (some b) r = b.status_captured && (not (b.diff_bytes == 0) || succeeded r)

-- A task that blocks nothing: no mutator, a slice of a family at quorum, or a mutator with evidence.
abbrev pub is_clear :
    (Text → Option Bool) → Dict Bundle → Dict RoleResult → Dict RoleResult → Text → Bool
is_clear profile bundles results agg id =
    not (is_mutator_task profile id)
    || not (teq (slice_family id) id) && succeeded (get (slice_family id) agg)
    || has_evidence (get id bundles) (get id results)

is_empty-if {ℓ} :
    {A : Type ℓ} (m q : Bool) (l : List A)
    → is_empty (if not m then [] else if q then [] else l) ≡ (not m || q || is_empty l)
is_empty-if true true l = refl
is_empty-if true false l = refl
is_empty-if false q l = refl

module _ (profile : Text → Option Bool) (bundles : Dict Bundle)
    (results agg : Dict RoleResult) where
  is_empty-bundle :
      (id : Text) (o : Option Bundle)
      → is_empty (bundle_blockers profile bundles results agg id o)
        ≡ has_evidence o (get id results)
  is_empty-bundle id none = refl
  is_empty-bundle id (some b) = ground arith

  is_empty-task :
      (id : Text)
      → is_empty (task_blockers profile bundles results agg id)
        ≡ is_clear profile bundles results agg id
  unfolding task_blockers
  is_empty-task id =
      is_empty-if (is_mutator_task profile id)
        (not (teq (slice_family id) id) && succeeded (get (slice_family id) agg))
        (bundle_blockers profile bundles results agg id (get id bundles))
      ∙ ap
          (λ b.
            not (is_mutator_task profile id)
            || not (teq (slice_family id) id) && succeeded (get (slice_family id) agg)
            || b)
          (is_empty-bundle id (get id bundles))

  is_empty-tasks :
      (ids : List Text)
      → is_empty (tasks_blockers profile bundles results agg ids)
        ≡ all (is_clear profile bundles results agg) ids
  unfolding tasks_blockers
  is_empty-tasks [] = refl
  is_empty-tasks (id ∷ ids) = ground (
    arith,
    is_empty-append (task_blockers profile bundles results agg id)
        (tasks_blockers profile bundles results agg ids),
    is_empty-task id,
    is_empty-tasks ids,
  )

is_empty-when {ℓ} : {A : Type ℓ} (b : Bool) (x : A) → is_empty (when b x) ≡ not b
is_empty-when true x = refl
is_empty-when false x = refl

-- A run is not blocked exactly if no load-bearing result of the aggregate is BLOCKED or REJECTED, no
-- artifact fell back for want of a status, and each task is no mutator, or a slice of a family at
-- quorum, or has a bundle with a status and with a diff or a success.
pub runtime_blockers-nil :
    (profile : Text → Option Bool) (num den : ℕ) (ids bodies : List Text) (bundles : Dict Bundle)
    (results : Dict RoleResult)
    → (runtime_blockers profile num den ids bodies bundles results ≡ []) ↔ (
        (not (load_bearing_failed (aggregated_role_results num den results))
          && (not (any (contains marker) bodies)
              && all
                  (is_clear profile bundles results (aggregated_role_results num den results))
                  ids))
        ≡ true)
unfolding runtime_blockers
runtime_blockers-nil profile num den ids bodies bundles results =
    let agg = aggregated_role_results num den results in
    let lb = when (load_bearing_failed agg) Blocker.role_failed in
    let fb = when (any (contains marker) bodies) Blocker.status_fallback in
    let tb = tasks_blockers profile bundles results agg ids in
    let e : is_empty (lb ++ (fb ++ tb)) ≡ (
        not (load_bearing_failed agg)
        && (not (any (contains marker) bodies) && all (is_clear profile bundles results agg) ids)) =
      is_empty-append lb (fb ++ tb)
      ∙ cc (
        is_empty-append fb tb,
        is_empty-when (load_bearing_failed agg) Blocker.role_failed,
        is_empty-when (any (contains marker) bodies) Blocker.status_fallback,
        is_empty-tasks profile bundles results agg ids,
      ) in
    let nil = is_empty-nil (lb ++ (fb ++ tb)) in (λ h. sym e ∙ nil.0 h, λ h. nil.1 (e ∙ h))
