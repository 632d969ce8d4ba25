-- ===== src/Closure/Accepted.antt =====
-- When the obligation ledgers and the AO2 decisions of a repository leave no error in
-- scripts/verify_closure.py.
use ao_operator.Base.{
  ◌≡◌, refl, ◌∙◌, ap, Bool, true, false, not, ◌&&◌, ◌||◌, Option, none, some, List, [], ◌∷◌, ◌++◌,
  all, arith,
}
use ao_operator.Base.Empty.{is_empty, is_empty-append}
use ao_operator.Text.{Text, codes}
use ao_operator.Closure.Repo.{
  Flag, Verification, Payload, null, not_object, object, Repo, Host, ClosureError,
}
use ao_operator.Closure.Ledgers.{is_text, error_if}
use ao_operator.Closure.Decisions.{
  is_true, flags, flag_errors, check_verification, run_verifier, payload_errors, schema_errors,
  decision_errors, decisions_errors, judged_errors, chosen_binary, find_ao2_binary,
  discover_decisions, decision_evidence,
}
use ao_operator.Closure.Obligations.{is_empty-error_if}

-- The verifier's answer: accepted, signed, each flag true, by the owner and in the role that are asked for.
abbrev pub is_verified : Verification → Bool
is_verified v =
    is_text (codes "ao2.ao-operator-compat-native-evaluator-verification.v1") v.schema_version
    && (is_text (codes "accepted") v.status
        && (is_text (codes "signed") v.signature_status
            && (all (λ f. is_true (v.flag f)) flags
                && (is_text (codes "ao2-native-evaluator-decision-verifier") v.ao2_decision_owner
                    && is_text (codes "parity_oracle_only") v.factory_v3_role))))

-- What the closure takes for an acceptance; the JSON value null is one.
abbrev pub is_payload_accepted : Option Payload → Bool
is_payload_accepted none = false
is_payload_accepted (some null) = true
is_payload_accepted (some not_object) = false
is_payload_accepted (some (object v)) = is_verified v

abbrev pub is_decision_accepted : Host → Text → Text → Option (Option Text) → Bool
is_decision_accepted host binary path none = false
is_decision_accepted host binary path (some schema) =
    is_text (codes "ao2.ao-operator-compat-native-evaluator-result.v1") schema
    && is_payload_accepted (run_verifier host binary path)

-- There is a decision and a binary, and the binary accepts each decision, or answers null.
abbrev pub are_judged : Host → Repo → List Text → Option Text → Bool
are_judged host repo paths none = false
are_judged host repo paths (some binary) =
    not (is_empty paths)
    && (not (is_empty binary)
        && all (λ path. is_decision_accepted host binary path (repo.decision path)) paths)

abbrev pub are_decisions_accepted : Host → Repo → Bool → Option Text → Bool
are_decisions_accepted host repo require ao2_binary =
    not require
    || are_judged host repo (discover_decisions repo)
        (chosen_binary ao2_binary (find_ao2_binary host))

is_empty-flags :
    (path : Text) (v : Verification) (fs : List Flag)
    → is_empty (flag_errors path v fs) ≡ all (λ f. is_true (v.flag f)) fs
unfolding flag_errors
is_empty-flags path v [] = refl
is_empty-flags path v (f ∷ fs) =
    is_empty-append (error_if (not (is_true (v.flag f))) (ClosureError.verification_flag path f))
      (flag_errors path v fs)
    ∙ ground (
      arith,
      is_empty-error_if (not (is_true (v.flag f))) (ClosureError.verification_flag path f),
      is_empty-flags path v fs,
    )

is_empty-parts :
    (a b c d e : Bool) (flagged : List ClosureError) (x y z u w : ClosureError)
    → is_empty (
        error_if (not a) x
        ++ (error_if (not b) y
            ++ (error_if (not c) z ++ (flagged ++ (error_if (not d) u ++ error_if (not e) w)))))
      ≡ (a && (b && (c && (is_empty flagged && (d && e)))))
is_empty-parts a b c d e [] x y z u w = ground arith
is_empty-parts a b c d e (f ∷ flagged) x y z u w = ground arith

is_empty-verification :
    (path : Text) (o : Option Payload) → is_empty (payload_errors path o) ≡ is_payload_accepted o
unfolding payload_errors check_verification
is_empty-verification path none = refl
is_empty-verification path (some null) = refl
is_empty-verification path (some not_object) = refl
is_empty-verification path (some (object v)) =
    is_empty-parts
      (is_text (codes "ao2.ao-operator-compat-native-evaluator-verification.v1") v.schema_version)
      (is_text (codes "accepted") v.status) (is_text (codes "signed") v.signature_status)
      (is_text (codes "ao2-native-evaluator-decision-verifier") v.ao2_decision_owner)
      (is_text (codes "parity_oracle_only") v.factory_v3_role) (flag_errors path v flags)
      (ClosureError.verification_schema path) (ClosureError.verification_status path)
      (ClosureError.verification_unsigned path) (ClosureError.verification_owner path)
      (ClosureError.verification_role path)
    ∙ ap
        (λ b.
          is_text (codes "ao2.ao-operator-compat-native-evaluator-verification.v1") v.schema_version
          && (is_text (codes "accepted") v.status
              && (is_text (codes "signed") v.signature_status
                  && (b
                      && (is_text (codes "ao2-native-evaluator-decision-verifier")
                            v.ao2_decision_owner
                          && is_text (codes "parity_oracle_only") v.factory_v3_role)))))
        (is_empty-flags path v flags)

is_empty-decision :
    (host : Host) (binary path : Text) (o : Option (Option Text))
    → is_empty (schema_errors host binary path o) ≡ is_decision_accepted host binary path o
unfolding schema_errors
is_empty-decision host binary path none = refl
is_empty-decision host binary path (some schema) =
    ground (arith, is_empty-verification path (run_verifier host binary path))

is_empty-decisions :
    (host : Host) (repo : Repo) (binary : Text) (paths : List Text)
    → is_empty (decisions_errors host repo binary paths)
      ≡ all (λ path. is_decision_accepted host binary path (repo.decision path)) paths
unfolding decisions_errors decision_errors
is_empty-decisions host repo binary [] = refl
is_empty-decisions host repo binary (path ∷ paths) =
    is_empty-append (decision_errors host repo binary path)
      (decisions_errors host repo binary paths)
    ∙ cc (
      is_empty-decision host binary path (repo.decision path),
      is_empty-decisions host repo binary paths,
    )

is_empty-judged :
    (host : Host) (repo : Repo) (paths : List Text) (binary : Option Text)
    → is_empty (judged_errors host repo paths binary) ≡ are_judged host repo paths binary
unfolding judged_errors
is_empty-judged host repo [] none = refl
is_empty-judged host repo [] (some binary) = refl
is_empty-judged host repo (p ∷ ps) none = refl
is_empty-judged host repo (p ∷ ps) (some []) = refl
is_empty-judged host repo (p ∷ ps) (some (c ∷ s)) = is_empty-decisions host repo (c ∷ s) (p ∷ ps)

pub is_empty-decision_evidence :
    (host : Host) (repo : Repo) (require : Bool) (ao2_binary : Option Text)
    → is_empty (decision_evidence host repo require ao2_binary)
      ≡ are_decisions_accepted host repo require ao2_binary
unfolding decision_evidence
is_empty-decision_evidence host repo false ao2_binary = refl
is_empty-decision_evidence host repo true ao2_binary =
    is_empty-judged host repo (discover_decisions repo)
      (chosen_binary ao2_binary (find_ao2_binary host))
