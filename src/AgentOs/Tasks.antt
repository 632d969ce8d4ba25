-- ===== src/AgentOs/Tasks.antt =====
-- What scripts/agent_os_runspec_validator.py has checked of a run specification without an error.
use ao_operator.Base.{
  ◌≡◌, refl, sym, ◌∙◌, ap, Bool, true, false, not, ◌&&◌, Option, none, some, List, [], ◌∷◌, ◌++◌,
  ◌==◌, all, count, length, if◌then◌else◌, arith,
}
use ao_operator.Base.Empty.{is_empty, is_empty-append}
use ao_operator.Text.{Text, codes, teq, mem, first_of_each, contains}
use ao_operator.AgentOs.Router.{is_false}
use ao_operator.AgentOs.Yaml.{parse_yaml_task_ids}
use ao_operator.AgentOs.Env.{or_text}
use ao_operator.AgentOs.Runspec.{
  Task, RendererReport, RunspecError, error_if, validate_report, ids_of, same_set, body_errors,
  found_errors, validate_runspec_file, is_given, is_provider, task_name, dependency_errors,
  task_errors, tasks_errors, validate_task_graph, validate_prompt_files, validate_provider_profile,
  validate_agent_os_runspec,
}
use ao_operator.AgentOs.Distinct.{is_fresh, length-first_of_each, count-fresh}

-- A task whose dependencies are tasks of the specification, with a provider that is supported, a prompt
-- and a policy, and that authorises no dispatch.
abbrev pub is_sound : List Text → Task → Bool
is_sound known t =
    all (λ d. mem d known) t.deps
    && (is_provider t.provider
        && (is_false t.dispatch_authorized
            && (is_given t.prompt_file && is_given t.policy_profile)))

is_empty-dependencies :
    (known : List Text) (task : Text) (deps : List Text)
    → is_empty (dependency_errors known task deps) ≡ all (λ d. mem d known) deps
unfolding dependency_errors
is_empty-dependencies known task [] = refl
is_empty-dependencies known task (d ∷ deps) = ground (arith, is_empty-dependencies known task deps)

is_empty-four :
    (found : List RunspecError) (a b c d : Bool) (x y z w : RunspecError)
    → is_empty (
        found
        ++ (error_if (not a) x
            ++ (error_if (not b) y ++ (error_if (not c) z ++ error_if (not d) w))))
      ≡ (is_empty found && (a && (b && (c && d))))
is_empty-four [] a b c d x y z w = ground arith
is_empty-four (e ∷ found) a b c d x y z w = ground arith

is_empty-task : (known : List Text) (t : Task) → is_empty (task_errors known t) ≡ is_sound known t
unfolding task_errors
is_empty-task known t =
    let name = task_name t in
    is_empty-four (dependency_errors known name t.deps) (is_provider t.provider)
      (is_false t.dispatch_authorized) (is_given t.prompt_file) (is_given t.policy_profile)
      (RunspecError.task_provider name) (RunspecError.task_dispatch name)
      (RunspecError.no_prompt_file name) (RunspecError.no_policy name)
    ∙ ap
        (λ b.
          b
          && (is_provider t.provider
              && (is_false t.dispatch_authorized
                  && (is_given t.prompt_file && is_given t.policy_profile))))
        (is_empty-dependencies known name t.deps)

is_empty-tasks :
    (known : List Text) (tasks : List Task)
    → is_empty (tasks_errors known tasks) ≡ all (is_sound known) tasks
unfolding tasks_errors
is_empty-tasks known [] = refl
is_empty-tasks known (t ∷ tasks) =
    is_empty-append (task_errors known t) (tasks_errors known tasks)
    ∙ cc (is_empty-task known t, is_empty-tasks known tasks)

is_empty-graph :
    (tasks : List Task)
    → is_empty (validate_task_graph tasks) ≡ (
        length (ids_of tasks) == length (first_of_each [] (ids_of tasks))
        && all (is_sound (ids_of tasks)) tasks)
unfolding validate_task_graph
is_empty-graph tasks = ground (arith, is_empty-tasks (ids_of tasks) tasks)

-- The tests on the text of the specification.
abbrev is_listed : List Text → Text → Bool
is_listed ids body =
    contains (codes "kind: Run") body
    && (not (contains (codes "dispatchAuthorized: true") body)
        && (length (parse_yaml_task_ids body) == length ids
            && same_set (parse_yaml_task_ids body) ids))

is_empty-tests :
    (a b c d : Bool) (x y z w : RunspecError)
    → is_empty (error_if (not a) x ++ (error_if b y ++ (error_if (not c) z ++ error_if (not d) w)))
      ≡ (a && (not b && (c && d)))
is_empty-tests a b c d x y z w = ground arith

is_empty-body :
    (ids : List Text) (body : Text) → is_empty (body_errors ids body) ≡ is_listed ids body
unfolding body_errors
is_empty-body ids body =
    is_empty-tests (contains (codes "kind: Run") body)
      (contains (codes "dispatchAuthorized: true") body)
      (length (parse_yaml_task_ids body) == length ids) (same_set (parse_yaml_task_ids body) ids)
      RunspecError.no_kind RunspecError.authorizes_dispatch RunspecError.count_mismatch
      RunspecError.ids_mismatch

-- A specification that is found lists the tasks.
file-listed :
    (ids : List Text) (found : Option Text)
    → is_empty (found_errors ids found) ≡ true
    → (body : Text) × (found ≡ some body) × (is_listed ids body ≡ true)
unfolding found_errors
file-listed ids none h = absurd (ground arith)
file-listed ids (some body) h = (body, refl, sym (is_empty-body ids body) ∙ h)

is_empty-otherwise :
    (b : Bool) (e : RunspecError) (l : List RunspecError)
    → is_empty (if b then e ∷ [] else l) ≡ true
    → is_empty l ≡ true
is_empty-otherwise true e l h = absurd (ground arith)
is_empty-otherwise false e l h = h

parts :
    (xs ys : List RunspecError)
    → is_empty (xs ++ ys) ≡ true
    → (is_empty xs ≡ true) × (is_empty ys ≡ true)
parts [] ys h = (refl, h)
parts (x ∷ xs) ys h = absurd (ground arith)

path-listed :
    (file : Text → Option Text) (r : RendererReport)
    → is_empty (validate_runspec_file file r) ≡ true
    → (body : Text) × (file (or_text [] r.runspec_path) ≡ some body)
      × (is_listed (ids_of r.tasks) body ≡ true)
unfolding validate_runspec_file
path-listed file r h =
    let path = or_text [] r.runspec_path in
    file-listed (ids_of r.tasks) (file path) (
      is_empty-otherwise (is_empty path) RunspecError.no_runspec_path
        (found_errors (ids_of r.tasks) (file path)) h)

-- Where the validation has no error, the specification's file is there, and lists the id of each task of
-- the report exactly once and no other id; and each task depends on tasks of the specification alone, has
-- a supported provider, a prompt and a policy, and authorises no dispatch.
pub validate_agent_os_runspec-lists :
    (file : Text → Option Text) (r : RendererReport) (profile : Option Text)
    → validate_agent_os_runspec file r profile ≡ []
    → (body : Text) × (file (or_text [] r.runspec_path) ≡ some body)
      × (is_fresh [] (ids_of r.tasks) ≡ true)
      × ((t : Text) → count (teq t) (parse_yaml_task_ids body) ≡ count (teq t) (ids_of r.tasks))
      × (all (is_sound (ids_of r.tasks)) r.tasks ≡ true)
unfolding validate_agent_os_runspec
validate_agent_os_runspec-lists file r profile h =
    let ids = ids_of r.tasks in
    let prompts =
      validate_prompt_files file r.prompt_files r.tasks
      ++ validate_provider_profile file profile r.tasks in
    let graph = validate_task_graph r.tasks in
    let listed = validate_runspec_file file r in
    let (none1, l1) = parts (validate_report r) (listed ++ (graph ++ prompts)) (ap is_empty h) in
    let (none2, l2) = parts listed (graph ++ prompts) l1 in
    let (none3, l3) = parts graph prompts l2 in
    let checked = sym (is_empty-graph r.tasks) ∙ none3 in
    let (body, there, tested) = path-listed file r none2 in
    let yaml = parse_yaml_task_ids body in
    let once : length (first_of_each [] ids) ≡ length ids = ground (arith, checked) in
    let fresh = length-first_of_each [] ids once in
    let same : length yaml ≡ length ids = ground (arith, tested) in
    let given : all (λ t. mem t yaml) ids ≡ true = ground (arith, tested) in
    (body, there, fresh, count-fresh [] ids yaml fresh same given, ground (arith, checked))
