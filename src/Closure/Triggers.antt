-- ===== src/Closure/Triggers.antt =====
-- scripts/verify_closure.py: the reviewers that fired trigger rules require, and Gate R for each report of
-- Gate B. An error is an element of `details`; of the advisories only their kind is modelled.
use ao_operator.Base.{
  ℕ, ◌-◌, leb, take, Bool, not, ◌&&◌, Option, none, some, List, [], ◌∷◌, ◌++◌, map, length,
  if◌then◌else◌,
}
use ao_operator.Base.Empty.{is_empty}
use ao_operator.Text.{Text, codes, teq, strip, is_space, sort_texts}
use ao_operator.GateR.{run_gate}
use ao_operator.Closure.Evidence.{reviewer_evidence_present}
use ao_operator.Closure.Repo.{Fired, Repo, ClosureError}

pub data Advisory : Type 0 where
  rules_unreadable : (name : Text) → Advisory
  no_evaluation : (slug : Text) → Advisory
  recommended_reviewer : (slug reviewer : Text) → Advisory

pub record Found : Type 0 where
  pub details : List ClosureError
  pub advisories : List Advisory

abbrev pub nothing : Found
nothing = record { details = []; advisories = [] }

abbrev pub both : Found → Found → Found
both a b = record { details = a.details ++ b.details; advisories = a.advisories ++ b.advisories }

unfoldable pub upper : ℕ → ℕ
upper c = if leb 97 c && leb c 122 then c - 32 else c

-- `sorted(paths)[-1]` of `first ∷ names`
unfoldable pub last_text : Text → List Text → Text
last_text last [] = last
last_text last (name ∷ names) = last_text name names

abbrev pub suffix : Text
suffix = codes "-trigger-rules.json"

unfoldable pub slug_of : Text → Text
slug_of name = take (length name - length suffix) name

abbrev pub or_default : Text → Option Text → Text
or_default d none = d
or_default d (some t) = t

abbrev pub reviewer_of : Fired → Text
reviewer_of f = strip is_space (or_default [] f.reviewer)

unfoldable pub is_required : Fired → Bool
unfolding upper teq
is_required f = teq (map upper (or_default (codes "RECOMMENDED") f.level)) (codes "REQUIRED")

-- The round of the loop for one rule that fired.
unfoldable pub check_fired : Text → Text → Fired → Found
unfolding strip is_space reviewer_evidence_present is_required
check_fired slug eval_text f =
    let reviewer = reviewer_of f in
    if is_empty reviewer
    then nothing
    else if reviewer_evidence_present eval_text reviewer
    then nothing
    else if is_required f
    then record { details = ClosureError.required_reviewer slug reviewer ∷ []; advisories = [] }
    else record { details = []; advisories = Advisory.recommended_reviewer slug reviewer ∷ [] }

unfoldable pub check_all_fired : Text → Text → List Fired → Found
unfolding check_fired
check_all_fired slug eval_text [] = nothing
check_all_fired slug eval_text (f ∷ fs) =
    both (check_fired slug eval_text f) (check_all_fired slug eval_text fs)

-- The rules of a file, by the names of the evaluations.
unfoldable pub check_rules : Repo → Text → Option (List Fired) → List Text → Found
unfolding slug_of last_text check_all_fired
check_rules repo name none evals = record {
  details = [];
  advisories = Advisory.rules_unreadable name ∷ [];
}
check_rules repo name (some []) evals = nothing
check_rules repo name (some (f ∷ fs)) [] = record {
  details = [];
  advisories = Advisory.no_evaluation (slug_of name) ∷ [];
}
check_rules repo name (some (f ∷ fs)) (e ∷ evals) =
    check_all_fired (slug_of name) (repo.evaluation (last_text e evals)) (f ∷ fs)

-- The round for one file of rules.
unfoldable pub check_trigger_file : Repo → Text → Found
unfolding sort_texts check_rules
check_trigger_file repo name =
    check_rules repo name (repo.fired name) (sort_texts (repo.evaluations (slug_of name)))

unfoldable pub check_trigger_files : Repo → List Text → Found
unfolding check_trigger_file
check_trigger_files repo [] = nothing
check_trigger_files repo (name ∷ names) =
    both (check_trigger_file repo name) (check_trigger_files repo names)

unfoldable pub trigger_review_evidence : Repo → Found
unfolding check_trigger_files
trigger_review_evidence repo =
    if not (repo.is_dir (codes "run-artifacts"))
    then nothing
    else check_trigger_files repo repo.trigger_files

-- The round of `gate_r_contract_evidence` for one report of Gate B.
unfoldable pub gate_r_failures : Repo → Text → List ClosureError
unfolding run_gate
gate_r_failures repo slug =
    if not (repo.is_dir (codes "run-artifacts/" ++ (slug ++ codes "/roles")))
    then []
    else map (ClosureError.gate_r_failed slug) (run_gate (repo.tree slug) slug (repo.gate_b slug))

unfoldable pub all_gate_r_failures : Repo → List Text → List ClosureError
unfolding gate_r_failures
all_gate_r_failures repo [] = []
all_gate_r_failures repo (slug ∷ slugs) =
    gate_r_failures repo slug ++ all_gate_r_failures repo slugs

unfoldable pub gate_r_contract_evidence : Repo → List ClosureError
unfolding sort_texts all_gate_r_failures
gate_r_contract_evidence repo =
    if not (repo.is_dir (codes "run-artifacts"))
    then []
    else all_gate_r_failures repo (sort_texts repo.gate_b_slugs)
