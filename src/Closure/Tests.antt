-- ===== src/Closure/Tests.antt =====
-- The closure of small repositories.
use ao_operator.Base.{◌≡◌, ◌↔◌, refl, ℕ, true, false, none, some, [], ◌∷◌}
use ao_operator.Text.{Text, codes, teq}
use ao_operator.GateR.{GateBReport, Tree, missing}
use ao_operator.Closure.Repo.{
  Fired, int, bare, Verification, Payload, null, object, returned, exited, verifier_exited, Repo,
  Host, required_reviewer, ledger_unverified, verification_unsigned,
}
use ao_operator.Closure.Run.{Options, pass, run}
use ao_operator.Closure.Verdict.{is_closed, run-pass}

abbrev no_report : GateBReport
no_report = record {
  role_artifacts = none;
  spec_roles = none;
  role_contracts = [];
  spec_slices = none;
  partition_slices = none;
}

abbrev no_tree : Tree
no_tree = record { file = λ p. none; role_files = []; patch = λ t. missing }

abbrev security : Fired
security = record {
  reviewer = some (codes "security");
  level = some (codes "required");
  trigger = none;
}

abbrev decision_path : Text
decision_path = codes ".ao2/ao2-native-evaluator-decision.json"

-- A repository with a command, a rule that fired, a ledger and a decision.
abbrev repo_with : Text → ℕ → Repo
repo_with evaluation unverified = record {
  is_file = λ p. teq p (codes "scripts/factory_doctor.py");
  is_dir = λ p. teq p (codes "run-artifacts");
  trigger_files = codes "run-trigger-rules.json" ∷ [];
  fired = λ name. some (security ∷ []);
  evaluations = λ slug. codes "run-evaluation.md" ∷ [];
  evaluation = λ name. evaluation;
  gate_b_slugs = [];
  gate_b = λ slug. no_report;
  tree = λ slug. no_tree;
  ledger_candidates = codes "run-artifacts/obligation-ledger.json" ∷ [];
  ledger = λ p.
      bare (some (codes "ao2.obligation-ledger.v1")) (some (codes "accepted")) (int 0)
        (int unverified);
  files = [];
  decision_candidates = decision_path ∷ [];
  decision = λ p. some (some (codes "ao2.ao-operator-compat-native-evaluator-result.v1"));
}

abbrev verification : Text → Verification
verification signature = record {
  schema_version = some (codes "ao2.ao-operator-compat-native-evaluator-verification.v1");
  status = some (codes "accepted");
  signature_status = some signature;
  flag = λ f. some true;
  ao2_decision_owner = some (codes "ao2-native-evaluator-decision-verifier");
  factory_v3_role = some (codes "parity_oracle_only");
}

abbrev host_that : Payload → Host
host_that answer = record {
  executable = codes "python3";
  is_nt = false;
  env = λ key. none;
  split = λ s. s ∷ [];
  is_file = λ p. false;
  which = some (codes "/usr/bin/ao2");
  parent = codes "/srv";
  exec = λ repo command. exited (returned 0);
  after = λ repo command. repo;
  write = λ repo path found. repo;
  verify = λ binary path. verifier_exited (returned 0) (codes "{}");
  loads = λ stdout. some answer;
}

abbrev host_with : Text → Host
host_with signature = host_that (object (verification signature))

abbrev good : Repo
good = repo_with (codes "- `security`: APPROVED") 0

abbrev host : Host
host = host_with (codes "signed")

abbrev strict : Options
strict = record {
  include_pytest = false;
  dry_run = false;
  extra = [];
  require_obligation_ledger = true;
  require_ao2_evaluator_decision = true;
  ao2_binary = none;
}

run-pass_example : ((run host good strict).verdict ≡ pass) ↔ (is_closed host good strict ≡ true)
run-pass_example = run-pass host good strict refl

run_passes : (run host good strict).verdict ≡ pass
unfolding run teq
run_passes = refl

run_unreviewed :
    (run host (repo_with (codes "looks fine") 0) strict).errors
    ≡ required_reviewer (codes "run") (codes "security") ∷ []
unfolding run teq
run_unreviewed = refl

run_unverified :
    (run host (repo_with (codes "- `security`: APPROVED") 2) strict).errors
    ≡ ledger_unverified (codes "run-artifacts/obligation-ledger.json") ∷ []
unfolding run teq
run_unverified = refl

run_unsigned :
    (run (host_with (codes "unsigned")) good strict).errors
    ≡ verification_unsigned decision_path ∷ []
unfolding run teq
run_unsigned = refl

-- A verifier that answers null passes for one that accepts.
run_null : (run (host_that null) good strict).verdict ≡ pass
unfolding run teq
run_null = refl
