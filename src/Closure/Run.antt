-- ===== src/Closure/Run.antt =====
-- scripts/verify_closure.py: the commands of a closure, and `run`. The host runs a command, and says what
-- it leaves of the repository; the evidence is read from what all the commands leave.
use ao_operator.Base.{
  Bool, true, false, not, ◌&&◌, ◌||◌, Option, none, some, List, [], ◌∷◌, ◌++◌, ◌==◌, map,
  if◌then◌else◌,
}
use ao_operator.Base.Empty.{is_empty}
use ao_operator.Text.{Text, codes}
use ao_operator.Closure.Repo.{
  returned, killed, Outcome, exited, timed_out, Repo, Host, ClosureError, command_failed,
}
use ao_operator.Closure.Triggers.{trigger_review_evidence, gate_r_contract_evidence}
use ao_operator.Closure.Ledgers.{obligation_ledger_evidence, error_if}
use ao_operator.Closure.Decisions.{decision_evidence}

pub record Options : Type 0 where
  pub include_pytest : Bool
  pub dry_run : Bool
  pub extra : List Text
  pub require_obligation_ledger : Bool
  pub require_ao2_evaluator_decision : Bool
  pub ao2_binary : Option Text

pub data Verdict : Type 0 where
  pass warn fail : Verdict

pub record Report : Type 0 where
  pub verdict : Verdict
  pub commands : List (List Text)
  pub no_commands : Bool
  pub errors : List ClosureError

abbrev pub default_shell : Bool → List Text
default_shell true = codes "cmd" ∷ codes "/c" ∷ []
default_shell false = codes "bash" ∷ codes "-lc" ∷ []

-- `_portable_shell_args`
unfoldable pub portable_shell_args : Host → Text → List Text
portable_shell_args host item = elim (host.env (codes "FACTORY_V3_SHELL")) [
  | none ↦ default_shell host.is_nt ++ (item ∷ [])
  | some [] ↦ default_shell host.is_nt ++ (item ∷ [])
  | some (c ∷ s) ↦ host.split (c ∷ s) ++ (item ∷ [])
]

abbrev pub command_if : Bool → List Text → List (List Text)
command_if true command = command ∷ []
command_if false command = []

unfoldable pub closure_commands : Host → Repo → Bool → List (List Text)
closure_commands host repo include_pytest =
    command_if (repo.is_file (codes "scripts/validate.py") && repo.is_file (codes "skills.toml"))
      (host.executable ∷ codes "scripts/validate.py" ∷ [])
    ++ (command_if (repo.is_file (codes "scripts/factory_doctor.py"))
          (host.executable ∷ codes "scripts/factory_doctor.py" ∷ codes "--json" ∷ [])
        ++ (command_if (repo.is_file (codes "scripts/self_check.py")) (
              host.executable
              ∷ codes "scripts/self_check.py"
              ∷ codes "--fast"
              ∷ codes "--json"
              ∷ [])
            ++ (command_if (repo.is_file (codes "scripts/build_ledger.py")) (
                  host.executable
                  ∷ codes "scripts/build_ledger.py"
                  ∷ codes "--check"
                  ∷ codes "--quiet"
                  ∷ [])
                ++ (command_if (repo.is_file (codes "scripts/artifact_hygiene.py")) (
                      host.executable ∷ codes "scripts/artifact_hygiene.py" ∷ codes "--strict" ∷ [])
                    ++ (if include_pytest && repo.is_file (codes "scripts/validate_workspace.py")
                        then (host.executable
                            ∷ codes "scripts/validate_workspace.py"
                            ∷ codes "--ci"
                            ∷ [])
                          ∷ []
                        else command_if
                            (include_pytest
                              && (repo.is_dir (codes "tests")
                                  || repo.is_file (codes "pyproject.toml")))
                            (host.executable ∷ codes "-m" ∷ codes "pytest" ∷ codes "-q" ∷ []))))))

-- `run_command`, its verdict.
abbrev pub is_passed : Outcome → Bool
is_passed timed_out = false
is_passed (exited (killed n)) = false
is_passed (exited (returned n)) = n == 0

-- The errors of the commands, one after the other, and the repository that they leave.
unfoldable pub run_commands : Host → Repo → List (List Text) → List ClosureError × Repo
run_commands host repo [] = ([], repo)
run_commands host repo (command ∷ commands) =
    let rest = run_commands host (host.after repo command) commands in
    (error_if (not (is_passed (host.exec repo command))) (command_failed command) ++ rest.0, rest.1)

abbrev pub verdict_of : Bool → List ClosureError → Verdict
verdict_of no_commands [] = if no_commands then warn else pass
verdict_of no_commands (e ∷ es) = fail

unfoldable pub all_commands : Host → Repo → Options → List (List Text)
unfolding closure_commands portable_shell_args
all_commands host repo options =
    closure_commands host repo options.include_pytest
    ++ map (portable_shell_args host) options.extra

-- The errors of the commands and of the four kinds of evidence.
unfoldable pub run_errors : Host → Repo → Options → List ClosureError
unfolding all_commands run_commands trigger_review_evidence gate_r_contract_evidence
    obligation_ledger_evidence decision_evidence
run_errors host repo options =
    let ran = run_commands host repo (all_commands host repo options) in
    let checked = obligation_ledger_evidence host ran.1 options.require_obligation_ledger in
    ran.0
    ++ ((trigger_review_evidence ran.1).details
        ++ (gate_r_contract_evidence ran.1
            ++ (checked.0
                ++ decision_evidence host checked.1 options.require_ao2_evaluator_decision
                    options.ao2_binary)))

unfoldable pub run : Host → Repo → Options → Report
unfolding run_errors
run host repo options =
    let commands = all_commands host repo options in
    if options.dry_run
    then record { verdict = pass; commands = commands; no_commands = false; errors = [] }
    else record {
      verdict = verdict_of (is_empty commands) (run_errors host repo options);
      commands = commands;
      no_commands = is_empty commands;
      errors = run_errors host repo options;
    }
