-- ===== src/Roles/Groups.antt =====
-- The results of the slices of a family, gathered by the aggregate of scripts/factory_run.py.
use ao_operator.Base.{
  ◌≡◌, refl, ap, ◌∙◌, Bool, true, false, Option, none, some, List, [], ◌∷◌, ◌++◌, if◌then◌else◌,
  arith, inl, inr, Option-cases, append_assoc,
}
use ao_operator.Text.{Text, teq, teq→eq, teq_refl, starts_with, remove_prefix}
use ao_operator.Dict.{Dict, get, get-set, IsDict, set-IsDict}
use ao_operator.Roles.Ids.{RoleResult, implementer, reviewer, implementer_prefix, reviewer_prefix}
use ao_operator.Roles.Quorum.{append_result, group_from}

-- The results of the ids with a prefix, in order.
unfoldable pub slices : Text → Dict RoleResult → List RoleResult
slices prefix [] = []
slices prefix ((id, r) ∷ results) =
    let rest = slices prefix results in if starts_with prefix id then r ∷ rest else rest

abbrev pub joined : Option (List RoleResult) → List RoleResult → Option (List RoleResult)
joined o [] = o
joined none (r ∷ rs) = some (r ∷ rs)
joined (some l) (r ∷ rs) = some (l ++ r ∷ rs)

joined-joined :
    (o : Option (List RoleResult)) (r : RoleResult) (rs : List RoleResult)
    → joined (joined o (r ∷ [])) rs ≡ joined o (r ∷ rs)
joined-joined none r [] = refl
joined-joined none r (x ∷ rs) = refl
joined-joined (some l) r [] = refl
joined-joined (some l) r (x ∷ rs) = ap (λ y. some y) (append_assoc l (r ∷ []) (x ∷ rs))

get-append_result :
    (family j : Text) (r : RoleResult) (g : Dict (List RoleResult))
    → get j (append_result family r g)
      ≡ (if teq family j then joined (get j g) (r ∷ []) else get j g)
unfolding append_result
get-append_result family j r g = elim (Option-cases (get family g)) [
  | inl absent ↦
      rw (absent, append_result, get-set family j (r ∷ []) g) (ground (arith, teq→eq family j))
  | inr (rs, there) ↦
      rw (there, append_result, get-set family j (rs ++ r ∷ []) g) (ground (arith, teq→eq family j))
]

-- An id starts with one of the two prefixes at most.
pub prefixes_disjoint :
    (id : Text) → starts_with implementer_prefix id ≡ true → starts_with reviewer_prefix id ≡ false
unfolding starts_with remove_prefix
prefixes_disjoint [] h = refl
prefixes_disjoint (c ∷ id) h = ground arith

step_group : Text → RoleResult → Dict (List RoleResult) → Dict (List RoleResult)
step_group id r g =
    if starts_with implementer_prefix id
    then append_result implementer r g
    else if starts_with reviewer_prefix id
    then append_result reviewer r g
    else g

families_ne : (teq implementer reviewer ≡ false) × (teq reviewer implementer ≡ false)
unfolding teq
families_ne = (refl, refl)

get-step_implementer :
    (id : Text) (r : RoleResult) (g : Dict (List RoleResult))
    → get implementer (step_group id r g) ≡ (
        if starts_with implementer_prefix id
        then joined (get implementer g) (r ∷ [])
        else get implementer g)
unfolding step_group
get-step_implementer id r g = ground (
  arith,
  get-append_result implementer implementer r g,
  get-append_result reviewer implementer r g,
  teq_refl implementer,
  families_ne,
)

get-step_reviewer :
    (id : Text) (r : RoleResult) (g : Dict (List RoleResult))
    → get reviewer (step_group id r g) ≡ (
        if starts_with reviewer_prefix id then joined (get reviewer g) (r ∷ []) else get reviewer g)
unfolding step_group
get-step_reviewer id r g = ground (
  arith,
  get-append_result implementer reviewer r g,
  get-append_result reviewer reviewer r g,
  teq_refl reviewer,
  families_ne,
  prefixes_disjoint id,
)

joined_if :
    (b : Bool) (o : Option (List RoleResult)) (r : RoleResult) (rs : List RoleResult)
    → joined (if b then joined o (r ∷ []) else o) rs ≡ joined o (if b then r ∷ rs else rs)
joined_if true o r rs = joined-joined o r rs
joined_if false o r rs = refl

pub get-group_implementer :
    (results : Dict RoleResult) (g : Dict (List RoleResult))
    → get implementer (group_from g results)
      ≡ joined (get implementer g) (slices implementer_prefix results)
unfolding group_from slices step_group
get-group_implementer [] g = refl
get-group_implementer ((id, r) ∷ results) g =
    get-group_implementer results (step_group id r g)
    ∙ ap (λ o. joined o (slices implementer_prefix results)) (get-step_implementer id r g)
    ∙ joined_if (starts_with implementer_prefix id) (get implementer g) r
        (slices implementer_prefix results)

pub get-group_reviewer :
    (results : Dict RoleResult) (g : Dict (List RoleResult))
    → get reviewer (group_from g results) ≡ joined (get reviewer g) (slices reviewer_prefix results)
unfolding group_from slices step_group
get-group_reviewer [] g = refl
get-group_reviewer ((id, r) ∷ results) g =
    get-group_reviewer results (step_group id r g)
    ∙ ap (λ o. joined o (slices reviewer_prefix results)) (get-step_reviewer id r g)
    ∙ joined_if (starts_with reviewer_prefix id) (get reviewer g) r (slices reviewer_prefix results)

append_result-IsDict :
    (family : Text) (r : RoleResult) (g : Dict (List RoleResult))
    → IsDict g
    → IsDict (append_result family r g)
unfolding append_result
append_result-IsDict family r g h = elim (Option-cases (get family g)) [
  | inl absent ↦ rw (absent, append_result) (set-IsDict family (r ∷ []) g h)
  | inr (rs, there) ↦ rw (there, append_result) (set-IsDict family (rs ++ r ∷ []) g h)
]

if-IsDict :
    (b : Bool) (d e : Dict (List RoleResult)) → IsDict d → IsDict e → IsDict (if b then d else e)
if-IsDict true d e h k = h
if-IsDict false d e h k = k

pub group_from-IsDict :
    (results : Dict RoleResult) (g : Dict (List RoleResult))
    → IsDict g
    → IsDict (group_from g results)
unfolding group_from
group_from-IsDict [] g h = h
group_from-IsDict ((id, r) ∷ results) g h = group_from-IsDict results _ (
    if-IsDict (starts_with implementer_prefix id) (append_result implementer r g)
      (if starts_with reviewer_prefix id then append_result reviewer r g else g)
      (append_result-IsDict implementer r g h)
      (if-IsDict (starts_with reviewer_prefix id) (append_result reviewer r g) g
        (append_result-IsDict reviewer r g h) h))
