-- ===== src/Roles/Quorum.antt =====
-- scripts/factory_run.py: the verdict on N slices, and the results with the slices put together.
-- The quorum is `quorum_num / quorum_den`, read from the environment, 3/4 by default; negative
-- settings are outside of the model.
use ao_operator.Base.{
  ℕ, ◌+◌, ◌-◌, ◌*◌, ◌/◌, ◌≤◌, ◌<◌, ◌↔◌, true, false, not, ◌&&◌, ◌||◌, none, some, List, [], ◌∷◌,
  ◌++◌, ltb, ◌==◌, if◌then◌else◌, count, all, length, arith,
}
use ao_operator.Text.{Text, teq, starts_with}
use ao_operator.Dict.{Dict, get, set}
use ao_operator.Roles.Ids.{
  RoleResult, done, done_with_concerns, blocked, is_success, is_done, implementer, reviewer,
  implementer_prefix, reviewer_prefix, slice_family,
}

-- ceil(num * n / den)
unfoldable pub quorum_threshold : ℕ → ℕ → ℕ → ℕ
quorum_threshold num den n = (num * n + (den - 1)) / den

unfoldable pub slice_quorum_verdict : ℕ → ℕ → List RoleResult → ℕ → RoleResult
unfolding quorum_threshold is_success is_done
slice_quorum_verdict num den results n =
    if n == 0 || den == 0
    then blocked
    else if ltb (count is_success results) (quorum_threshold num den n)
    then blocked
    else if all is_done results
    then done
    else done_with_concerns

-- `grouped.setdefault(family, []).append(result)`
unfoldable pub append_result : Text → RoleResult → Dict (List RoleResult) → Dict (List RoleResult)
unfolding get set
append_result family r grouped = elim (get family grouped) [
  | none ↦ set family (r ∷ []) grouped
  | some rs ↦ set family (rs ++ r ∷ []) grouped
]

unfoldable pub group_from : Dict (List RoleResult) → Dict RoleResult → Dict (List RoleResult)
unfolding append_result starts_with
group_from grouped [] = grouped
group_from grouped ((id, r) ∷ results) =
    group_from
      (if starts_with implementer_prefix id
        then append_result implementer r grouped
        else if starts_with reviewer_prefix id
        then append_result reviewer r grouped
        else grouped)
      results

unfoldable pub slice_role_results : Dict RoleResult → Dict (List RoleResult)
unfolding group_from
slice_role_results results = group_from [] results

-- The entries that are not put into a family.
unfoldable pub pass_from :
    Dict (List RoleResult) → Dict RoleResult → Dict RoleResult → Dict RoleResult
unfolding slice_family get set
pass_from grouped agg [] = agg
pass_from grouped agg ((id, r) ∷ results) =
    let family = slice_family id in
    let skipped =
      not (teq family id) && (elim (get family grouped) [ none ↦ false | some _ ↦ true ]) in
    pass_from grouped (if skipped then agg else set id r agg) results

unfoldable pub families_from : ℕ → ℕ → Dict RoleResult → Dict (List RoleResult) → Dict RoleResult
unfolding slice_quorum_verdict set
families_from num den agg [] = agg
families_from num den agg ((family, rs) ∷ grouped) =
    families_from num den (set family (slice_quorum_verdict num den rs (length rs)) agg) grouped

unfoldable pub aggregated_role_results : ℕ → ℕ → Dict RoleResult → Dict RoleResult
unfolding slice_role_results pass_from families_from
aggregated_role_results num den results =
    let grouped = slice_role_results results in
    families_from num den (pass_from grouped [] results) grouped

pub threshold-le :
    (num den n c : ℕ) → 0 < den → (quorum_threshold num den n ≤ c) ↔ (num * n ≤ c * den)
unfolding quorum_threshold
threshold-le num den n c h = (λ k. grind arith, λ k. grind arith)
