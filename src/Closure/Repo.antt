-- ===== src/Closure/Repo.antt =====
-- What scripts/verify_closure.py reads of a repository, and the world that it runs in: the commands, the
-- verifier of the AO2 binary, and the file system, none of which is code of this repository. What the
-- script raises on is left out: a command that is not there, and a ledger that is JSON but no object.
-- Where the verifier's JSON is neither null nor an object, the script has its error and then raises; here
-- the error stands, and the closure fails.
use ao_operator.Base.{ℕ, Bool, Option, List}
use ao_operator.Text.{Text}
use ao_operator.Ledger.{Ledger, File}
use ao_operator.GateR.{GateBReport, GateError, Tree}

-- A trigger rule that fired; a field is missing where the rule does not give it.
pub record Fired : Type 0 where
  pub reviewer : Option Text
  pub level : Option Text
  pub trigger : Option Text

-- A JSON value where a count is read. A negative number is `below n`, that is `-(n + 1)`.
pub data Value : Type 0 where
  int below : ℕ → Value
  flag : Bool → Value
  text : Text → Value
  other : Value

-- An obligation ledger's file: no JSON, or one that cannot be checked, or with both lists, or without.
pub data LedgerData : Type 0 where
  unreadable uncheckable : LedgerData
  full : (schema : Option Text) (ledger : Ledger) → LedgerData
  bare : (schema verdict : Option Text) (fail unverified : Value) → LedgerData

-- The flags of a verification.
pub data Flag : Type 0 where
  signature_verified signature_digest_match public_key_digest_match signed_payload_digest_match
        decision_payload_matches_signed_payload signature_requirement_satisfied trust_boundary_ok :
      Flag

pub record Verification : Type 0 where
  pub schema_version : Option Text
  pub status : Option Text
  pub signature_status : Option Text
  pub flag : Flag → Option Bool
  pub ao2_decision_owner : Option Text
  pub factory_v3_role : Option Text

-- The verifier's output, read as JSON: the value null, another value that is no object, or an object.
pub data Payload : Type 0 where
  null not_object : Payload
  object : Verification → Payload

pub data Code : Type 0 where
  returned killed : ℕ → Code

pub data Outcome : Type 0 where
  exited : Code → Outcome
  timed_out : Outcome

pub data VerifierRun : Type 0 where
  not_executed verifier_timed_out : VerifierRun
  verifier_exited : (code : Code) (stdout : Text) → VerifierRun

pub record Repo : Type 0 where
  pub is_file : Text → Bool
  pub is_dir : Text → Bool
  pub trigger_files : List Text
  pub fired : Text → Option (List Fired)
  pub evaluations : Text → List Text
  pub evaluation : Text → Text
  pub gate_b_slugs : List Text
  pub gate_b : Text → GateBReport
  pub tree : Text → Tree
  pub ledger_candidates : List Text
  pub ledger : Text → LedgerData
  pub files : List File
  pub decision_candidates : List Text
  pub decision : Text → Option (Option Text)

pub record Host : Type 0 where
  pub executable : Text
  pub is_nt : Bool
  pub env : Text → Option Text
  pub split : Text → List Text
  pub is_file : Text → Bool
  pub which : Option Text
  pub parent : Text
  pub exec : Repo → List Text → Outcome
  pub after : Repo → List Text → Repo
  pub write : Repo → Text → LedgerData → Repo
  pub verify : (binary path : Text) → VerifierRun
  pub loads : Text → Option Payload

pub data ClosureError : Type 0 where
  command_failed : List Text → ClosureError
  required_reviewer : (slug reviewer : Text) → ClosureError
  gate_r_failed : (slug : Text) → GateError → ClosureError
  no_ledger no_decision no_binary : ClosureError
  ledger_unreadable ledger_uncheckable ledger_schema ledger_verdict ledger_fail ledger_unverified :
      (path : Text) → ClosureError
  decision_unreadable decision_schema : (path : Text) → ClosureError
  verifier_failed payload_not_object verification_schema verification_status verification_unsigned
        verification_owner verification_role :
      (path : Text) → ClosureError
  verification_flag : (path : Text) → Flag → ClosureError
