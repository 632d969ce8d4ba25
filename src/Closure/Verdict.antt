-- ===== src/Closure/Verdict.antt =====
-- When scripts/verify_closure.py passes.
use ao_operator.Base.{
  ◌≡◌, ◌↔◌, refl, sym, ◌∙◌, ap, Bool, true, false, not, ◌&&◌, List, [], ◌∷◌, ◌++◌, arith,
  if◌then◌else◌,
}
use ao_operator.Base.Empty.{is_empty, is_empty-append}
use ao_operator.Text.{Text}
use ao_operator.Closure.Repo.{Repo, Host, ClosureError}
use ao_operator.Closure.Triggers.{trigger_review_evidence, gate_r_contract_evidence}
use ao_operator.Closure.Ledgers.{obligation_ledger_evidence, error_if}
use ao_operator.Closure.Decisions.{decision_evidence}
use ao_operator.Closure.Required.{
  are_satisfied, are_gated, is_empty-trigger_review_evidence, is_empty-gate_r_contract_evidence,
}
use ao_operator.Closure.Accepted.{are_decisions_accepted, is_empty-decision_evidence}
use ao_operator.Closure.Obligations.{
  are_obligations_met, is_empty-error_if, is_empty-obligation_ledger_evidence,
}
use ao_operator.Closure.Run.{
  Options, pass, verdict_of, is_passed, run_commands, all_commands, run_errors, Report, run,
}

-- Each command exits with zero, in the repository that the commands before it leave.
unfoldable pub are_passed : Host → Repo → List (List Text) → Bool
are_passed host repo [] = true
are_passed host repo (command ∷ commands) =
    let rest = are_passed host (host.after repo command) commands in
    is_passed (host.exec repo command) && rest

-- The commands pass, and what they leave is in order by each kind of evidence.
abbrev pub is_closed : Host → Repo → Options → Bool
is_closed host repo options =
    let commands = all_commands host repo options in
    let left = (run_commands host repo commands).1 in
    let checked = (obligation_ledger_evidence host left options.require_obligation_ledger).1 in
    not (is_empty commands)
    && (are_passed host repo commands
        && (are_satisfied left
            && (are_gated left
                && (are_obligations_met host left options.require_obligation_ledger
                    && are_decisions_accepted host checked options.require_ao2_evaluator_decision
                        options.ao2_binary))))

is_empty-commands :
    (host : Host) (repo : Repo) (commands : List (List Text))
    → is_empty (run_commands host repo commands).0 ≡ are_passed host repo commands
unfolding run_commands are_passed
is_empty-commands host repo [] = refl
is_empty-commands host repo (command ∷ commands) =
    let failed = not (is_passed (host.exec repo command)) in
    let e = ClosureError.command_failed command in
    is_empty-append (error_if failed e) (run_commands host (host.after repo command) commands).0
    ∙ ground (
      arith,
      is_empty-error_if failed e,
      is_empty-commands host (host.after repo command) commands,
    )

verdict_of-pass :
    (no_commands : Bool) (errors : List ClosureError)
    → (verdict_of no_commands errors ≡ pass) ↔ ((not no_commands && is_empty errors) ≡ true)
verdict_of-pass true [] = (λ h. absurd (ground arith), λ h. absurd (ground arith))
verdict_of-pass false [] = (λ h. refl, λ h. refl)
verdict_of-pass true (e ∷ errors) = (λ h. absurd (ground arith), λ h. absurd (ground arith))
verdict_of-pass false (e ∷ errors) = (λ h. absurd (ground arith), λ h. absurd (ground arith))

is_empty-run_errors :
    (host : Host) (repo : Repo) (options : Options)
    → (not (is_empty (all_commands host repo options)) && is_empty (run_errors host repo options))
      ≡ is_closed host repo options
unfolding run_errors
is_empty-run_errors host repo options =
    let commands = all_commands host repo options in
    let ran = run_commands host repo commands in
    let found = (trigger_review_evidence ran.1).details in
    let gated = gate_r_contract_evidence ran.1 in
    let checked = obligation_ledger_evidence host ran.1 options.require_obligation_ledger in
    let decided =
      decision_evidence host checked.1 options.require_ao2_evaluator_decision options.ao2_binary in
    ap (λ b. not (is_empty commands) && b)
      (is_empty-append ran.0 (found ++ (gated ++ (checked.0 ++ decided)))
        ∙ cc (
          is_empty-commands host repo commands,
          is_empty-append found (gated ++ (checked.0 ++ decided)),
          is_empty-trigger_review_evidence ran.1,
          is_empty-append gated (checked.0 ++ decided),
          is_empty-gate_r_contract_evidence ran.1,
          is_empty-append checked.0 decided,
          is_empty-obligation_ledger_evidence host ran.1 options.require_obligation_ledger,
          is_empty-decision_evidence host checked.1 options.require_ao2_evaluator_decision
              options.ao2_binary,
        ))

verdict-live :
    (dry : Bool) (r s : Report) → dry ≡ false → (if dry then r else s).verdict ≡ s.verdict
verdict-live true r s h = absurd (ground arith)
verdict-live false r s h = refl

-- A closure that is not a dry run passes exactly if there is a command and each exits with zero; and, in
-- what they leave, each required reviewer of a rule that fired is evidenced in the rule's evaluation, if
-- there is one, Gate R passes for each report with role artifacts, each obligation ledger is accepted
-- after it is checked anew, one being there where one is required, and, where a decision is required,
-- there is one and the binary's verifier, on each, accepts it or answers the JSON value null.
pub run-pass :
    (host : Host) (repo : Repo) (options : Options)
    → options.dry_run ≡ false
    → ((run host repo options).verdict ≡ pass) ↔ (is_closed host repo options ≡ true)
unfolding run
run-pass host repo options real =
    let commands = all_commands host repo options in
    let errors = run_errors host repo options in
    let judged = verdict_of-pass (is_empty commands) errors in
    let e = is_empty-run_errors host repo options in
    let live =
      verdict-live options.dry_run
        (record { verdict = pass; commands = commands; no_commands = false; errors = [] })
        (record {
          verdict = verdict_of (is_empty commands) errors;
          commands = commands;
          no_commands = is_empty commands;
          errors = errors;
        })
        real in
    (λ h. sym e ∙ judged.0 (sym live ∙ h), λ h. live ∙ judged.1 (e ∙ h))
