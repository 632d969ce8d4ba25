-- ===== src/AgentOs/Env.antt =====
-- scripts/agent_os_runspec_validator.py: the provider profile, and the provider that it gives a role.
use ao_operator.Base.{
  Bool, not, ◌&&◌, ◌||◌, Option, none, some, List, [], ◌∷◌, ◌++◌, ◌==◌, if◌then◌else◌,
}
use ao_operator.Base.Empty.{is_empty}
use ao_operator.Text.{
  Text, codes, teq, mem, is_space, strip, starts_with, ends_with, split_after, remove_prefix,
  sort_texts,
}
use ao_operator.Dict.{Dict, get, set}
use ao_operator.AgentOs.Brief.{splitlines}

pub data EnvError : Type 0 where
  profile_missing : EnvError
  not_key_value : (line : Text) → EnvError
  unsupported : (key value : Text) → EnvError

abbrev pub valid_providers : List Text
valid_providers = codes "codex" ∷ codes "claude" ∷ codes "antigravity" ∷ []

-- `line.split("=", 1)[0]`
unfoldable pub before_equals : Text → Text
before_equals [] = []
before_equals (c ∷ s) = let rest = before_equals s in if c == b'=' then [] else c ∷ rest

pub record Env : Type 0 where
  pub values : Dict Text
  pub errors : List EnvError

-- The round for one line.
unfoldable pub read_line : Env → Text → Env
unfolding strip is_space starts_with split_after before_equals set
read_line env raw =
    let line = strip is_space raw in
    if is_empty line || starts_with (codes "#") line
    then env
    else elim (split_after (codes "=") line) [
      | none ↦ record env { errors = env.errors ++ not_key_value line ∷ [] }
      | some value ↦ record env {
        values = set (strip is_space (before_equals line)) (strip is_space value) env.values;
      }
    ]

unfoldable pub read_lines : Env → List Text → Env
unfolding read_line
read_lines env [] = env
read_lines env (l ∷ lines) = read_lines (read_line env l) lines

abbrev pub is_provider_key : Text → Bool
is_provider_key key =
    teq key (codes "FACTORY_V3_DEFAULT_PROVIDER")
    || starts_with (codes "FACTORY_V3_") key && ends_with (codes "_PROVIDER") key

-- The values in the order of their keys; no key is there twice.
unfoldable pub value_errors : Dict Text → List Text → List EnvError
unfolding get teq starts_with ends_with
value_errors values [] = []
value_errors values (key ∷ keys) =
    let rest = value_errors values keys in
    elim (get key values) [
      | none ↦ rest
      | some value ↦
          if is_provider_key key && not (mem value valid_providers)
          then unsupported key value ∷ rest
          else rest
    ]

abbrev pub keys_of : Dict Text → List Text
keys_of [] = []
keys_of ((key, value) ∷ d) = key ∷ keys_of d

-- `parse_env`, of the file's text if there is one
unfoldable pub parse_env : Option Text → Env
unfolding splitlines read_lines value_errors sort_texts
parse_env none = record { values = []; errors = profile_missing ∷ [] }
parse_env (some body) =
    let env = read_lines (record { values = []; errors = [] }) (splitlines body) in
    record env { errors = env.errors ++ value_errors env.values (sort_texts (keys_of env.values)) }

abbrev pub role_provider_keys : Dict Text
role_provider_keys =
    (codes "planner", codes "FACTORY_V3_PLANNER_PROVIDER")
    ∷ (codes "spec-forge", codes "FACTORY_V3_SPEC_FORGE_PROVIDER")
    ∷ (codes "ralph-loop", codes "FACTORY_V3_RALPH_LOOP_PROVIDER")
    ∷ (codes "plan-hardener", codes "FACTORY_V3_PLAN_HARDENER_PROVIDER")
    ∷ (codes "factory-manager", codes "FACTORY_V3_FACTORY_MANAGER_PROVIDER")
    ∷ (codes "implementer", codes "FACTORY_V3_IMPLEMENTER_PROVIDER")
    ∷ (codes "slice-reviewer", codes "FACTORY_V3_SLICE_REVIEWER_PROVIDER")
    ∷ (codes "integrator", codes "FACTORY_V3_INTEGRATOR_PROVIDER")
    ∷ (codes "evaluator-closer", codes "FACTORY_V3_EVALUATOR_CLOSER_PROVIDER")
    ∷ []

abbrev pub or_text : Text → Option Text → Text
or_text d none = d
or_text d (some t) = t

unfoldable pub role_for_task_id : Text → Text
unfolding remove_prefix
role_for_task_id id = or_text id (remove_prefix (codes "agent-os-") id)

-- The value at the role's own key, unless it is missing or empty.
unfoldable pub expected_provider_for_role : Dict Text → Text → Text
unfolding get
expected_provider_for_role env role =
    let own : Text = elim (get role role_provider_keys) [
      | none ↦ []
      | some key ↦ or_text [] (get key env)
    ] in
    if not (is_empty own)
    then own
    else or_text (codes "codex") (get (codes "FACTORY_V3_DEFAULT_PROVIDER") env)
