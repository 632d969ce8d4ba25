-- ===== src/Roles/Aggregate.antt =====
-- What `aggregated_role_results` of scripts/factory_run.py returns for a family and for other ids.
use ao_operator.Base.{
  ℕ, zero, suc, ◌*◌, ◌||◌, ◌==◌, ◌≡◌, ◌≢◌, refl, sym, ap, ◌∙◌, Option, none, some, List, [], ◌∷◌,
  ltb, if◌then◌else◌, count, all, length, arith, inl, inr, Bool-cases,
}
use ao_operator.Text.{Text, teq, teq→eq}
use ao_operator.Dict.{Dict, get, set, get-set, IsDict}
use ao_operator.Roles.Ids.{
  RoleResult, done, done_with_concerns, blocked, is_success, is_done, implementer, reviewer,
  implementer_prefix, reviewer_prefix,
}
use ao_operator.Roles.Quorum.{
  slice_quorum_verdict, group_from, slice_role_results, pass_from, families_from,
  aggregated_role_results, threshold-le,
}
use ao_operator.Roles.Groups.{
  slices, joined, get-group_implementer, get-group_reviewer, group_from-IsDict,
}

-- The verdict without rounding: blocked without a slice, with the denominator 0 or below the quorum's
-- share of the slices, else done if every result is DONE, else done with concerns.
pub slice_quorum_verdict_lem :
    (num den n : ℕ) (results : List RoleResult)
    → slice_quorum_verdict num den results n ≡ (
        if n == 0 || (den == 0 || ltb (count is_success results * den) (num * n))
        then blocked
        else if all is_done results
        then done
        else done_with_concerns)
unfolding slice_quorum_verdict
slice_quorum_verdict_lem num zero n results = ground arith
slice_quorum_verdict_lem num (suc den) n results =
    ground (arith, threshold-le num (suc den) n (count is_success results) (omega arith))

module _ (num den : ℕ) where
  abbrev verdict_of : Option (List RoleResult) → Option RoleResult → Option RoleResult
  verdict_of none o = o
  verdict_of (some rs) o = some (slice_quorum_verdict num den rs (length rs))

  get-families_from :
      (grouped : Dict (List RoleResult)) (agg : Dict RoleResult) (j : Text)
      → IsDict grouped
      → get j (families_from num den agg grouped) ≡ verdict_of (get j grouped) (get j agg)
  unfolding families_from get
  get-families_from [] agg j h = refl
  get-families_from ((family, rs) ∷ grouped) agg j (new, h) =
      let v = slice_quorum_verdict num den rs (length rs) in
      let ih = get-families_from grouped (set family v agg) j h in
      elim (Bool-cases (teq family j)) [
        | inl same ↦
            let absent : get j grouped ≡ none =
              ap (λ k. get k grouped) (sym (teq→eq family j same)) ∙ new in
            rw same (ih ∙ cc (absent, same, get-set family j v agg))
        | inr other ↦ rw other (ih ∙ cc (other, get-set family j v agg))
      ]

  slices_verdict :
      (rs : List RoleResult) (o : Option RoleResult)
      → rs ≢ []
      → verdict_of (joined none rs) o ≡ some (slice_quorum_verdict num den rs (length rs))
  slices_verdict [] o h = absurd (h refl)
  slices_verdict (r ∷ rs) o h = refl

  grouped_verdict :
      (results : Dict RoleResult) (family : Text) (rs : List RoleResult)
      → get family (slice_role_results results) ≡ joined none rs
      → rs ≢ []
      → get family (aggregated_role_results num den results)
        ≡ some (slice_quorum_verdict num den rs (length rs))
  unfolding aggregated_role_results slice_role_results
  grouped_verdict results family rs e h =
      let grouped = group_from [] results in
      let agg = pass_from grouped [] results in
      get-families_from grouped agg family (group_from-IsDict results [] tt)
      ∙ ap (λ o. verdict_of o (get family agg)) e
      ∙ slices_verdict rs (get family agg) h

  -- Where a slice of the implementer reported, the aggregate has, as the implementer's result, the
  -- quorum's verdict on the results of all its slices, in their order, and nothing that stood under
  -- the implementer's own name.
  pub get-aggregated_implementer :
      (results : Dict RoleResult)
      → slices implementer_prefix results ≢ []
      → get implementer (aggregated_role_results num den results)
        ≡ some (
            slice_quorum_verdict num den
              (slices implementer_prefix results)
              (length (slices implementer_prefix results)))
  get-aggregated_implementer results =
      grouped_verdict results implementer (slices implementer_prefix results)
        (unfold slice_role_results in get-group_implementer results [])

  -- Where a slice of the reviewer reported, the aggregate has, as the reviewer's result, the quorum's
  -- verdict on the results of all its slices, in their order, and nothing that stood under the
  -- reviewer's own name.
  pub get-aggregated_reviewer :
      (results : Dict RoleResult)
      → slices reviewer_prefix results ≢ []
      → get reviewer (aggregated_role_results num den results)
        ≡ some (
            slice_quorum_verdict num den
              (slices reviewer_prefix results)
              (length (slices reviewer_prefix results)))
  get-aggregated_reviewer results =
      grouped_verdict results reviewer (slices reviewer_prefix results)
        (unfold slice_role_results in get-group_reviewer results [])
