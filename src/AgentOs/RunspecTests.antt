-- ===== src/AgentOs/RunspecTests.antt =====
-- The validation of a small run specification.
use ao_operator.Base.{
  ◌≡◌, refl, true, false, Option, none, some, List, [], ◌∷◌, ◌++◌, all, count, if◌then◌else◌,
}
use ao_operator.Text.{Text, codes, teq}
use ao_operator.AgentOs.Yaml.{parse_yaml_task_ids}
use ao_operator.AgentOs.Env.{or_text}
use ao_operator.AgentOs.Runspec.{
  Task, RendererReport, provider_mismatch, unknown_dependency, ids_of, prompt_required_text,
  validate_agent_os_runspec,
}
use ao_operator.AgentOs.Distinct.{is_fresh}
use ao_operator.AgentOs.Tasks.{is_sound, validate_agent_os_runspec-lists}

abbrev lines : List Text → Text
lines [] = []
lines (l ∷ ls) = l ++ 10 ∷ lines ls

abbrev file : Text → Option Text
file path =
    if teq path (codes "run.yaml")
    then some (codes "kind: Run\nspec:\n  - id: agent-os-planner\n  - id: agent-os-implementer\n")
    else if teq path (codes "providers.env")
    then some (codes "# roles\nFACTORY_V3_PLANNER_PROVIDER = claude\n")
    else if teq path (codes "prompt.md")
    then some (lines prompt_required_text)
    else none

abbrev task_on : Text → List Text → Text → Task
task_on id deps provider = record {
  id = some id;
  deps = deps;
  provider = some provider;
  dispatch_authorized = some false;
  prompt_file = some (codes "prompt.md");
  policy_profile = some (codes "default");
}

abbrev report_on : List Text → RendererReport
report_on deps = record {
  schema = some (codes "ao-operator/agent-os-runspec-renderer/v1");
  verdict = some (codes "PASS");
  dispatch_authorized = some false;
  live_providers_run = some false;
  tasks =
      task_on (codes "agent-os-planner") [] (codes "codex")
      ∷ task_on (codes "agent-os-implementer") deps (codes "codex")
      ∷ [];
  runspec_path = some (codes "run.yaml");
  prompt_files = codes "prompt.md" ∷ [];
}

abbrev report : RendererReport
report = report_on (codes "agent-os-planner" ∷ [])

valid : validate_agent_os_runspec file report none ≡ []
unfolding validate_agent_os_runspec teq
valid = refl

validate_agent_os_runspec-lists_example :
    (body : Text) × (file (or_text [] report.runspec_path) ≡ some body)
    × (is_fresh [] (ids_of report.tasks) ≡ true)
    × ((t : Text) → count (teq t) (parse_yaml_task_ids body) ≡ count (teq t) (ids_of report.tasks))
    × (all (is_sound (ids_of report.tasks)) report.tasks ≡ true)
validate_agent_os_runspec-lists_example = validate_agent_os_runspec-lists file report none valid

unknown :
    validate_agent_os_runspec file (report_on (codes "other" ∷ [])) none
    ≡ unknown_dependency (codes "agent-os-implementer") (codes "other") ∷ []
unfolding validate_agent_os_runspec teq
unknown = refl

mismatch :
    validate_agent_os_runspec file report (some (codes "providers.env"))
    ≡ provider_mismatch (codes "planner") (codes "claude") (codes "codex") ∷ []
unfolding validate_agent_os_runspec teq
mismatch = refl
