-- ===== src/AgentOs/Runspec.antt =====
-- scripts/agent_os_runspec_validator.py: the validation of a rendered run specification. The files are
-- given by the function that reads one, by its path as the report has it.
use ao_operator.Base.{
  Bool, true, false, not, ◌&&◌, ◌||◌, Option, none, some, List, [], ◌∷◌, ◌++◌, ◌==◌, all, map,
  filter, length, if◌then◌else◌,
}
use ao_operator.Base.Empty.{is_empty}
use ao_operator.Text.{Text, codes, teq, mem, first_of_each, contains}
use ao_operator.AgentOs.Router.{is_value, is_false}
use ao_operator.AgentOs.Yaml.{parse_yaml_task_ids}
use ao_operator.AgentOs.Env.{
  EnvError, Env, valid_providers, parse_env, role_for_task_id, expected_provider_for_role, or_text,
}
use ao_operator.Dict.{Dict}

pub record Task : Type 0 where
  pub id : Option Text
  pub deps : List Text
  pub provider : Option Text
  pub dispatch_authorized : Option Bool
  pub prompt_file : Option Text
  pub policy_profile : Option Text

-- The report of the renderer; the lists are as `task_list` and `prompt_files` give them.
pub record RendererReport : Type 0 where
  pub schema : Option Text
  pub verdict : Option Text
  pub dispatch_authorized : Option Bool
  pub live_providers_run : Option Bool
  pub tasks : List Task
  pub runspec_path : Option Text
  pub prompt_files : List Text

pub data RunspecError : Type 0 where
  renderer_schema renderer_verdict renderer_dispatch renderer_live no_tasks : RunspecError
  no_runspec_path runspec_missing no_kind authorizes_dispatch count_mismatch ids_mismatch :
      RunspecError
  ids_not_unique : RunspecError
  unknown_dependency : (task dep : Text) → RunspecError
  task_provider task_dispatch no_prompt_file no_policy : (task : Text) → RunspecError
  prompts_mismatch : RunspecError
  prompt_missing : (prompt : Text) → RunspecError
  no_section : (prompt section : Text) → RunspecError
  profile_error : EnvError → RunspecError
  provider_mismatch : (role expected actual : Text) → RunspecError

abbrev pub error_if : Bool → RunspecError → List RunspecError
error_if true e = e ∷ []
error_if false e = []

unfoldable pub validate_report : RendererReport → List RunspecError
unfolding teq
validate_report r =
    error_if (not (is_value (codes "ao-operator/agent-os-runspec-renderer/v1") r.schema))
      renderer_schema
    ++ (error_if (not (is_value (codes "PASS") r.verdict)) renderer_verdict
        ++ (error_if (not (is_false r.dispatch_authorized)) renderer_dispatch
            ++ (error_if (not (is_false r.live_providers_run)) renderer_live
                ++ error_if (is_empty r.tasks) no_tasks)))

-- `[str(task.get("id")) for task in tasks if task.get("id")]`
abbrev pub ids_of : List Task → List Text
ids_of tasks = filter (λ t. not (is_empty t)) (map (λ (task : Task). or_text [] task.id) tasks)

-- `set(a) == set(b)`
abbrev pub same_set : List Text → List Text → Bool
same_set a b = all (λ t. mem t b) a && all (λ t. mem t a) b

unfoldable pub body_errors : List Text → Text → List RunspecError
unfolding contains teq parse_yaml_task_ids
body_errors ids body =
    let yaml = parse_yaml_task_ids body in
    error_if (not (contains (codes "kind: Run") body)) no_kind
    ++ (error_if (contains (codes "dispatchAuthorized: true") body) authorizes_dispatch
        ++ (error_if (not (length yaml == length ids)) count_mismatch
            ++ error_if (not (same_set yaml ids)) ids_mismatch))

unfoldable pub found_errors : List Text → Option Text → List RunspecError
unfolding body_errors
found_errors ids none = runspec_missing ∷ []
found_errors ids (some body) = body_errors ids body

unfoldable pub validate_runspec_file : (Text → Option Text) → RendererReport → List RunspecError
unfolding found_errors
validate_runspec_file file r =
    let path = or_text [] r.runspec_path in
    if is_empty path then no_runspec_path ∷ [] else found_errors (ids_of r.tasks) (file path)

abbrev pub is_given : Option Text → Bool
is_given none = false
is_given (some t) = not (is_empty t)

abbrev pub is_provider : Option Text → Bool
is_provider none = false
is_provider (some p) = mem p valid_providers

-- `str(task.get("id") or "<missing>")`
abbrev pub task_name : Task → Text
task_name t = if is_given t.id then or_text [] t.id else codes "<missing>"

unfoldable pub dependency_errors : List Text → Text → List Text → List RunspecError
unfolding teq
dependency_errors known task [] = []
dependency_errors known task (d ∷ deps) =
    error_if (not (mem d known)) (unknown_dependency task d) ++ dependency_errors known task deps

-- The round for one task.
unfoldable pub task_errors : List Text → Task → List RunspecError
unfolding teq dependency_errors
task_errors known t =
    let name = task_name t in
    dependency_errors known name t.deps
    ++ (error_if (not (is_provider t.provider)) (task_provider name)
        ++ (error_if (not (is_false t.dispatch_authorized)) (task_dispatch name)
            ++ (error_if (not (is_given t.prompt_file)) (no_prompt_file name)
                ++ error_if (not (is_given t.policy_profile)) (no_policy name))))

unfoldable pub tasks_errors : List Text → List Task → List RunspecError
unfolding task_errors
tasks_errors known [] = []
tasks_errors known (t ∷ tasks) = task_errors known t ++ tasks_errors known tasks

unfoldable pub validate_task_graph : List Task → List RunspecError
unfolding first_of_each tasks_errors
validate_task_graph tasks =
    let ids = ids_of tasks in
    error_if (not (length ids == length (first_of_each [] ids))) ids_not_unique
    ++ tasks_errors ids tasks

abbrev pub prompt_required_text : List Text
prompt_required_text =
    codes "Use only the scoped context below. Do not use full conversation history."
    ∷ codes "## Reads"
    ∷ codes "## Writes"
    ∷ codes "## Verification Commands"
    ∷ codes "## Required Status Fields"
    ∷ codes "Dispatch is not authorized by this rendered draft."
    ∷ []

unfoldable pub section_errors : Text → Text → List Text → List RunspecError
unfolding contains
section_errors prompt body [] = []
section_errors prompt body (required ∷ more) =
    error_if (not (contains required body)) (no_section prompt required)
    ++ section_errors prompt body more

unfoldable pub prompt_errors : Text → Option Text → List RunspecError
unfolding section_errors
prompt_errors prompt none = prompt_missing prompt ∷ []
prompt_errors prompt (some body) = section_errors prompt body prompt_required_text

unfoldable pub prompts_errors : (Text → Option Text) → List Text → List RunspecError
unfolding prompt_errors
prompts_errors file [] = []
prompts_errors file (prompt ∷ prompts) =
    prompt_errors prompt (file prompt) ++ prompts_errors file prompts

abbrev pub prompt_files_of : List Task → List Text
prompt_files_of tasks =
    filter (λ t. not (is_empty t)) (map (λ (task : Task). or_text [] task.prompt_file) tasks)

unfoldable pub validate_prompt_files :
    (Text → Option Text) → List Text → List Task → List RunspecError
unfolding teq prompts_errors
validate_prompt_files file files tasks =
    error_if (not (same_set files (prompt_files_of tasks))) prompts_mismatch
    ++ prompts_errors file files

-- The provider of each task against the one that the profile expects of its role.
unfoldable pub provider_errors : Dict Text → List Task → List RunspecError
unfolding teq role_for_task_id expected_provider_for_role
provider_errors env [] = []
provider_errors env (t ∷ tasks) =
    let rest = provider_errors env tasks in
    let role = role_for_task_id (or_text [] t.id) in
    let actual = or_text [] t.provider in
    let expected = expected_provider_for_role env role in
    if not (mem expected valid_providers) || teq actual expected
    then rest
    else provider_mismatch role expected actual ∷ rest

unfoldable pub env_errors : Env → List Task → List RunspecError
unfolding provider_errors
env_errors env tasks =
    if is_empty env.errors then provider_errors env.values tasks else map profile_error env.errors

unfoldable pub validate_provider_profile :
    (Text → Option Text) → Option Text → List Task → List RunspecError
unfolding parse_env env_errors
validate_provider_profile file none tasks = []
validate_provider_profile file (some path) tasks = env_errors (parse_env (file path)) tasks

-- The errors of the validation, which passes if there are none, and authorises no dispatch.
unfoldable pub validate_agent_os_runspec :
    (Text → Option Text) → RendererReport → (profile : Option Text) → List RunspecError
unfolding validate_report validate_runspec_file validate_task_graph validate_prompt_files
    validate_provider_profile
validate_agent_os_runspec file r profile =
    validate_report r
    ++ (validate_runspec_file file r
        ++ (validate_task_graph r.tasks
            ++ (validate_prompt_files file r.prompt_files r.tasks
                ++ validate_provider_profile file profile r.tasks)))
