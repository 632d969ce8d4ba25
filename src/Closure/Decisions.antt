-- ===== src/Closure/Decisions.antt =====
-- scripts/verify_closure.py: the AO2 binary and its verdict on the decisions of its native evaluator. The
-- verifier's output and its JSON are those of the host.
use ao_operator.Base.{
  Bool, true, false, not, ◌&&◌, ◌||◌, Option, none, some, List, [], ◌∷◌, ◌++◌, ◌==◌, filter,
  if◌then◌else◌,
}
use ao_operator.Base.Empty.{is_empty}
use ao_operator.Text.{Text, codes, teq, strip, is_space, ends_with}
use ao_operator.Closure.Repo.{
  Flag, signature_verified, signature_digest_match, public_key_digest_match,
  signed_payload_digest_match, decision_payload_matches_signed_payload,
  signature_requirement_satisfied, trust_boundary_ok, Verification, Payload, null, not_object,
  object, returned, killed, not_executed, verifier_timed_out, verifier_exited, Repo, Host,
  ClosureError, no_decision, no_binary, decision_unreadable, decision_schema, verifier_failed,
  payload_not_object, verification_schema, verification_status, verification_unsigned,
  verification_owner, verification_role, verification_flag,
}
use ao_operator.Closure.Ledgers.{sorted_set, is_text, error_if}

abbrev pub is_file_at : Host → Option Text → Bool
is_file_at host none = false
is_file_at host (some path) = not (is_empty path) && host.is_file path

abbrev pub or_binary : Bool → Option Text → Option Text → Option Text
or_binary true path rest = path
or_binary false path rest = rest

-- `_find_ao2_binary`; `parent` is the directory that holds the repository.
unfoldable pub find_ao2_binary : Host → Option Text
find_ao2_binary host =
    let release = host.parent ++ codes "/ao2/target/release/ao2" in
    let debug = host.parent ++ codes "/ao2/target/debug/ao2" in
    or_binary (is_file_at host (host.env (codes "AO2_BINARY"))) (host.env (codes "AO2_BINARY")) (
      or_binary (is_file_at host (host.env (codes "AO2_BIN"))) (host.env (codes "AO2_BIN")) (
        or_binary (host.is_file release) (some release)
          (or_binary (host.is_file debug) (some debug) host.which)))

abbrev pub is_true : Option Bool → Bool
is_true (some true) = true
is_true _ = false

abbrev pub flags : List Flag
flags =
    signature_verified ∷ signature_digest_match ∷ public_key_digest_match
    ∷ signed_payload_digest_match ∷ decision_payload_matches_signed_payload
    ∷ signature_requirement_satisfied ∷ trust_boundary_ok ∷ []

unfoldable pub flag_errors : Text → Verification → List Flag → List ClosureError
flag_errors path v [] = []
flag_errors path v (f ∷ fs) =
    error_if (not (is_true (v.flag f))) (verification_flag path f) ++ flag_errors path v fs

-- `_check_ao2_native_evaluator_verification`
unfoldable pub check_verification : Text → Payload → List ClosureError
unfolding teq flag_errors
check_verification path null = payload_not_object path ∷ []
check_verification path not_object = payload_not_object path ∷ []
check_verification path (object v) =
    error_if
      (not (
        is_text (codes "ao2.ao-operator-compat-native-evaluator-verification.v1") v.schema_version))
      (verification_schema path)
    ++ (error_if (not (is_text (codes "accepted") v.status)) (verification_status path)
        ++ (error_if (not (is_text (codes "signed") v.signature_status))
              (verification_unsigned path)
            ++ (flag_errors path v flags
                ++ (error_if
                      (not (
                        is_text (codes "ao2-native-evaluator-decision-verifier")
                          v.ao2_decision_owner))
                      (verification_owner path)
                    ++ error_if (not (is_text (codes "parity_oracle_only") v.factory_v3_role))
                        (verification_role path)))))

-- `_run_ao2_evaluator_decision_verifier`: the payload, if the verifier gave one.
unfoldable pub run_verifier : Host → Text → Text → Option Payload
unfolding strip is_space
run_verifier host binary path = elim (host.verify binary path) [
  | not_executed ↦ none
  | verifier_timed_out ↦ none
  | verifier_exited (killed n) stdout ↦ none
  | verifier_exited (returned n) stdout ↦
      if not (n == 0) || is_empty (strip is_space stdout)
      then none
      else host.loads (strip is_space stdout)
]

-- The round for one decision, once its schema is read. A null is read as no payload, and comes with no
-- error of the verifier's run to report.
unfoldable pub payload_errors : Text → Option Payload → List ClosureError
unfolding check_verification
payload_errors path none = verifier_failed path ∷ []
payload_errors path (some null) = []
payload_errors path (some not_object) = check_verification path not_object
payload_errors path (some (object v)) = check_verification path (object v)

unfoldable pub schema_errors : Host → Text → Text → Option (Option Text) → List ClosureError
unfolding teq run_verifier payload_errors
schema_errors host binary path none = decision_unreadable path ∷ []
schema_errors host binary path (some schema) =
    if not (is_text (codes "ao2.ao-operator-compat-native-evaluator-result.v1") schema)
    then decision_schema path ∷ []
    else payload_errors path (run_verifier host binary path)

unfoldable pub decision_errors : Host → Repo → Text → Text → List ClosureError
unfolding schema_errors
decision_errors host repo binary path = schema_errors host binary path (repo.decision path)

unfoldable pub decisions_errors : Host → Repo → Text → List Text → List ClosureError
unfolding decision_errors
decisions_errors host repo binary [] = []
decisions_errors host repo binary (path ∷ paths) =
    decision_errors host repo binary path ++ decisions_errors host repo binary paths

-- `_discover_ao2_native_evaluator_decisions`
unfoldable pub discover_decisions : Repo → List Text
unfolding ends_with sorted_set
discover_decisions repo =
    sorted_set
      (filter (λ p. not (ends_with (codes ".signed-payload.json") p)) repo.decision_candidates)

abbrev pub chosen_binary : Option Text → Option Text → Option Text
chosen_binary none found = found
chosen_binary (some given) found = some given

-- The decisions by a binary, which may be none or the empty text.
unfoldable pub judged_errors : Host → Repo → List Text → Option Text → List ClosureError
unfolding decisions_errors
judged_errors host repo [] binary = no_decision ∷ []
judged_errors host repo (p ∷ ps) none = no_binary ∷ []
judged_errors host repo (p ∷ ps) (some []) = no_binary ∷ []
judged_errors host repo (p ∷ ps) (some (c ∷ s)) = decisions_errors host repo (c ∷ s) (p ∷ ps)

-- `ao2_evaluator_decision_evidence`
unfoldable pub decision_evidence :
    Host → Repo → (require : Bool) (ao2_binary : Option Text) → List ClosureError
unfolding discover_decisions find_ao2_binary judged_errors
decision_evidence host repo false ao2_binary = []
decision_evidence host repo true ao2_binary =
    judged_errors host repo (discover_decisions repo)
      (chosen_binary ao2_binary (find_ao2_binary host))
