-- ===== src/AgentOs/Uat.antt =====
-- scripts/agent_os_uat_response_gate.py: the human responses to the acceptance items.
use ao_operator.Base.{
  ℕ, suc, Bool, true, false, not, ◌&&◌, ◌||◌, Option, none, some, List, [], ◌∷◌, ◌++◌, ◌==◌, ltb,
  all, if◌then◌else◌,
}
use ao_operator.Base.Empty.{is_empty}
use ao_operator.Text.{Text, codes, teq, strip, is_space}
use ao_operator.Dict.{Dict, get, set}
use ao_operator.AgentOs.Router.{is_value, is_false}

-- The report on the acceptance; of an item only its id is read.
pub record UatReport : Type 0 where
  pub schema : Option Text
  pub verdict : Option Text
  pub dispatch_authorized : Option Bool
  pub live_providers_run : Option Bool
  pub closure_authorized : Option Bool
  pub uat_items : List (Option Text)

-- What a response says of `accepted`: nothing or null, true, or another value.
pub data Answer : Type 0 where
  pending accepted rejected : Answer

pub record Response : Type 0 where
  pub id : Option Text
  pub answer : Answer
  pub response : Option Text
  pub responder : Option Text
  pub responded_at : Option Text

pub record ResponseData : Type 0 where
  pub schema : Option Text
  pub responses : List Response

pub data SourceError : Type 0 where
  uat_schema uat_verdict uat_dispatch uat_live uat_closure no_items response_schema : SourceError

abbrev pub error_if : Bool → SourceError → List SourceError
error_if true e = e ∷ []
error_if false e = []

unfoldable pub validate_source : UatReport → List SourceError
unfolding teq
validate_source u =
    error_if (not (is_value (codes "ao-operator/agent-os-uat-state/v1") u.schema)) uat_schema
    ++ (error_if (not (is_value (codes "PASS") u.verdict)) uat_verdict
        ++ (error_if (not (is_false u.dispatch_authorized)) uat_dispatch
            ++ (error_if (not (is_false u.live_providers_run)) uat_live
                ++ (error_if (not (is_false u.closure_authorized)) uat_closure
                    ++ error_if (is_empty u.uat_items) no_items))))

-- `str(item.get("id"))`
abbrev pub id_text : Option Text → Text
id_text none = codes "None"
id_text (some t) = t

-- A response without an id is left out of the dict.
unfoldable pub with_response : Dict Response → Response → Option Text → Dict Response
unfolding set
with_response d r none = d
with_response d r (some []) = d
with_response d r (some (c ∷ s)) = set (c ∷ s) r d

-- `{str(item.get("id")): item for item in responses if item.get("id")}`
unfoldable pub by_id_from : Dict Response → List Response → Dict Response
unfolding with_response
by_id_from d [] = d
by_id_from d (r ∷ rs) = by_id_from (with_response d r r.id) rs

pub record Summary : Type 0 where
  pub accepted : ℕ
  pub pending : ℕ
  pub rejected : ℕ
  pub required : ℕ

abbrev pub answer_of : Option Response → Answer
answer_of none = pending
answer_of (some r) = r.answer

abbrev pub tally : Answer → Summary → Summary
tally pending s = record s { pending = suc s.pending }
tally accepted s = record s { accepted = suc s.accepted }
tally rejected s = record s { rejected = suc s.rejected }

unfoldable pub summary_from : Dict Response → List (Option Text) → Summary
unfolding get
summary_from by_id [] = record { accepted = 0; pending = 0; rejected = 0; required = 0 }
summary_from by_id (item ∷ items) =
    let rest = summary_from by_id items in
    tally (answer_of (get (id_text item) by_id)) (record rest { required = suc rest.required })

unfoldable pub response_summary : List (Option Text) → List Response → Summary
unfolding by_id_from summary_from
response_summary items responses = summary_from (by_id_from [] responses) items

abbrev pub is_given : Option Text → Bool
is_given none = false
is_given (some t) = not (is_empty (strip is_space t))

abbrev pub is_accepted : Answer → Bool
is_accepted accepted = true
is_accepted _ = false

unfoldable pub complete_accepted_response : Option Response → Bool
unfolding strip is_space
complete_accepted_response none = false
complete_accepted_response (some r) =
    is_accepted r.answer
    && (is_given r.response && (is_given r.responder && is_given r.responded_at))

unfoldable pub closure_allowed : List (Option Text) → List Response → Bool
unfolding by_id_from get complete_accepted_response
closure_allowed items responses =
    let by_id = by_id_from [] responses in
    all (λ item. complete_accepted_response (get (id_text item) by_id)) items

pub data GateBlocker : Type 0 where
  incomplete rejection : GateBlocker

-- The second blocker is not named twice.
abbrev pub gate_blockers : Summary → Bool → List GateBlocker
gate_blockers s malformed =
    let lacking = not (s.pending == 0) || ltb s.accepted s.required in
    (if malformed then incomplete ∷ [] else [])
    ++ ((if not (s.rejected == 0) then rejection ∷ [] else [])
        ++ (if lacking && not malformed then incomplete ∷ [] else []))

pub record Gate : Type 0 where
  pub passes : Bool
  pub response_summary : Summary
  pub blockers : List GateBlocker
  pub closure_authorized : Bool
  pub dispatch_authorized : Bool
  pub live_providers_run : Bool
  pub errors : List SourceError

abbrev pub is_malformed : Option ResponseData → Bool
is_malformed none = false
is_malformed (some d) = not (is_value (codes "ao-operator/agent-os-uat-responses/v1") d.schema)

abbrev pub responses_of : Option ResponseData → List Response
responses_of none = []
responses_of (some d) = d.responses

-- `evaluate_gate`; there are no response data where the file has no object, or an empty one.
unfoldable pub evaluate_gate : UatReport → Option ResponseData → Gate
unfolding teq validate_source response_summary closure_allowed
evaluate_gate u found =
    let errors = validate_source u in
    let malformed = is_malformed found in
    let responses = responses_of found in
    let summary = response_summary u.uat_items responses in
    let allowed = is_empty errors && (not malformed && closure_allowed u.uat_items responses) in
    record {
      passes = is_empty errors && not malformed;
      response_summary = summary;
      blockers = if allowed then [] else gate_blockers summary malformed;
      closure_authorized = allowed;
      dispatch_authorized = false;
      live_providers_run = false;
      errors = errors ++ error_if malformed response_schema;
    }
