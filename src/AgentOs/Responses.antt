-- ===== src/AgentOs/Responses.antt =====
-- Which response counts for an item in scripts/agent_os_uat_response_gate.py.
use ao_operator.Base.{
  ◌≡◌, refl, ◌∙◌, ap, Bool, false, Option, none, some, List, [], ◌∷◌, all, if◌then◌else◌,
}
use ao_operator.Text.{Text, teq}
use ao_operator.Dict.{Dict, get, get-set}
use ao_operator.AgentOs.Uat.{
  Response, with_response, by_id_from, id_text, complete_accepted_response, closure_allowed,
}

abbrev names_item : Text → Option Text → Bool
names_item id none = false
names_item id (some []) = false
names_item id (some (c ∷ s)) = teq (c ∷ s) id

-- The last response with the id, or else the one before the list.
abbrev pub last_response : Text → Option Response → List Response → Option Response
last_response id before [] = before
last_response id before (r ∷ rs) =
    last_response id (if names_item id r.id then some r else before) rs

-- The last response to the item accepts it, and is complete.
abbrev pub is_answered : List Response → Option Text → Bool
is_answered responses item =
    complete_accepted_response (last_response (id_text item) none responses)

get-with_response :
    (id : Text) (d : Dict Response) (r : Response) (o : Option Text)
    → get id (with_response d r o) ≡ (if names_item id o then some r else get id d)
unfolding with_response
get-with_response id d r none = refl
get-with_response id d r (some []) = refl
get-with_response id d r (some (c ∷ s)) = get-set (c ∷ s) id r d

get-by_id :
    (id : Text) (d : Dict Response) (rs : List Response)
    → get id (by_id_from d rs) ≡ last_response id (get id d) rs
unfolding by_id_from
get-by_id id d [] = refl
get-by_id id d (r ∷ rs) =
    get-by_id id (with_response d r r.id) rs
    ∙ ap (λ o. last_response id o rs) (get-with_response id d r r.id)

all-answered :
    (items : List (Option Text)) (responses : List Response)
    → all (λ item. complete_accepted_response (get (id_text item) (by_id_from [] responses))) items
      ≡ all (is_answered responses) items
unfolding get
all-answered [] responses = refl
all-answered (item ∷ items) responses = cc (
  ap complete_accepted_response (get-by_id (id_text item) [] responses),
  all-answered items responses,
)

pub closure_allowed_lem :
    (items : List (Option Text)) (responses : List Response)
    → closure_allowed items responses ≡ all (is_answered responses) items
unfolding closure_allowed
closure_allowed_lem items responses = all-answered items responses
