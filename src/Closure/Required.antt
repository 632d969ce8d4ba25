-- ===== src/Closure/Required.antt =====
-- When the trigger rules and the gates of a repository leave no error in scripts/verify_closure.py.
use ao_operator.Base.{
  ◌≡◌, refl, ◌∙◌, Bool, true, not, ◌||◌, Option, none, some, List, [], ◌∷◌, ◌++◌, all, arith,
}
use ao_operator.Base.Empty.{is_empty, is_empty-append, is_empty-map}
use ao_operator.Text.{Text, codes, sort_texts}
use ao_operator.GateR.{run_gate}
use ao_operator.Closure.Evidence.{reviewer_evidence_present}
use ao_operator.Closure.Repo.{Fired, Repo, ClosureError}
use ao_operator.Closure.Triggers.{
  slug_of, last_text, reviewer_of, is_required, check_fired, check_all_fired, check_rules,
  check_trigger_file, check_trigger_files, trigger_review_evidence, gate_r_failures,
  all_gate_r_failures, gate_r_contract_evidence,
}

-- The rule names no reviewer, or there is evidence of the reviewer, or the rule only recommends.
abbrev pub is_evidenced : Text → Fired → Bool
is_evidenced eval_text f =
    is_empty (reviewer_of f)
    || reviewer_evidence_present eval_text (reviewer_of f)
    || not (is_required f)

-- The rules that fired are evidenced in the last of the evaluations, if there is one.
abbrev pub are_evidenced : Repo → Option (List Fired) → List Text → Bool
are_evidenced repo none evals = true
are_evidenced repo (some fs) [] = true
are_evidenced repo (some fs) (e ∷ evals) =
    all (is_evidenced (repo.evaluation (last_text e evals))) fs

abbrev pub is_satisfied : Repo → Text → Bool
is_satisfied repo name =
    are_evidenced repo (repo.fired name) (sort_texts (repo.evaluations (slug_of name)))

-- Gate R passes for the report, if it has role artifacts.
abbrev pub is_gated : Repo → Text → Bool
is_gated repo slug =
    not (repo.is_dir (codes "run-artifacts/" ++ (slug ++ codes "/roles")))
    || is_empty (run_gate (repo.tree slug) slug (repo.gate_b slug))

-- Without the directory of the artifacts there is nothing to satisfy.
abbrev pub are_satisfied : Repo → Bool
are_satisfied repo =
    not (repo.is_dir (codes "run-artifacts")) || all (is_satisfied repo) repo.trigger_files

abbrev pub are_gated : Repo → Bool
are_gated repo =
    not (repo.is_dir (codes "run-artifacts")) || all (is_gated repo) (sort_texts repo.gate_b_slugs)

is_empty-fired :
    (slug eval_text : Text) (f : Fired)
    → is_empty (check_fired slug eval_text f).details ≡ is_evidenced eval_text f
unfolding check_fired
is_empty-fired slug eval_text f = ground arith

is_empty-all_fired :
    (slug eval_text : Text) (fs : List Fired)
    → is_empty (check_all_fired slug eval_text fs).details ≡ all (is_evidenced eval_text) fs
unfolding check_all_fired
is_empty-all_fired slug eval_text [] = refl
is_empty-all_fired slug eval_text (f ∷ fs) =
    is_empty-append (check_fired slug eval_text f).details
      (check_all_fired slug eval_text fs).details
    ∙ cc (is_empty-fired slug eval_text f, is_empty-all_fired slug eval_text fs)

is_empty-rules :
    (repo : Repo) (name : Text) (fired : Option (List Fired)) (evals : List Text)
    → is_empty (check_rules repo name fired evals).details ≡ are_evidenced repo fired evals
unfolding check_rules
is_empty-rules repo name none evals = refl
is_empty-rules repo name (some []) [] = refl
is_empty-rules repo name (some []) (e ∷ evals) = refl
is_empty-rules repo name (some (f ∷ fs)) [] = refl
is_empty-rules repo name (some (f ∷ fs)) (e ∷ evals) =
    is_empty-all_fired (slug_of name) (repo.evaluation (last_text e evals)) (f ∷ fs)

is_empty-trigger_files :
    (repo : Repo) (names : List Text)
    → is_empty (check_trigger_files repo names).details ≡ all (is_satisfied repo) names
unfolding check_trigger_files check_trigger_file
is_empty-trigger_files repo [] = refl
is_empty-trigger_files repo (name ∷ names) =
    is_empty-append (check_trigger_file repo name).details (check_trigger_files repo names).details
    ∙ cc (
      is_empty-rules repo name (repo.fired name) (sort_texts (repo.evaluations (slug_of name))),
      is_empty-trigger_files repo names,
    )

pub is_empty-trigger_review_evidence :
    (repo : Repo) → is_empty (trigger_review_evidence repo).details ≡ are_satisfied repo
unfolding trigger_review_evidence
is_empty-trigger_review_evidence repo =
    ground (arith, is_empty-trigger_files repo repo.trigger_files)

is_empty-gate_r :
    (repo : Repo) (slug : Text) → is_empty (gate_r_failures repo slug) ≡ is_gated repo slug
unfolding gate_r_failures
is_empty-gate_r repo slug = ground (
  arith,
  is_empty-map (ClosureError.gate_r_failed slug)
      (run_gate (repo.tree slug) slug (repo.gate_b slug)),
)

is_empty-all_gate_r :
    (repo : Repo) (slugs : List Text)
    → is_empty (all_gate_r_failures repo slugs) ≡ all (is_gated repo) slugs
unfolding all_gate_r_failures
is_empty-all_gate_r repo [] = refl
is_empty-all_gate_r repo (slug ∷ slugs) =
    is_empty-append (gate_r_failures repo slug) (all_gate_r_failures repo slugs)
    ∙ cc (is_empty-gate_r repo slug, is_empty-all_gate_r repo slugs)

pub is_empty-gate_r_contract_evidence :
    (repo : Repo) → is_empty (gate_r_contract_evidence repo) ≡ are_gated repo
unfolding gate_r_contract_evidence
is_empty-gate_r_contract_evidence repo =
    ground (arith, is_empty-all_gate_r repo (sort_texts repo.gate_b_slugs))
