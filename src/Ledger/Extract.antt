-- ===== src/Ledger/Extract.antt =====
-- scripts/obligation_ledger.py: which lines of a text are obligations, of which kind, and which exact
-- fragments they name.
use ao_operator.Base.{
  ℕ, zero, suc, ◌≡◌, refl, Bool, false, ◌&&◌, ◌||◌, Option, none, some, List, [], ◌∷◌, ◌++◌, ◌==◌,
  leb, if◌then◌else◌, any, filter, map, length,
}
use ao_operator.Text.{Text, codes, contains, strip, lstrip, is_space, lower, sort_texts}
use ao_operator.Ledger.Defs.{mem_text, nonempty, Obligation, unverified, Ledger, refresh, rejected}

pub data Kind : Type 0 where
  must_not content_preservation acceptance rubric must : Kind

unfoldable pub is_marker : ℕ → Bool
is_marker c = c == b'-' || c == b'*'

unfoldable pub is_digit_or_dot : ℕ → Bool
is_digit_or_dot c = leb b'0' c && leb c b'9' || c == b'.'

-- The loop that takes leading digits and dots, with fuel.
unfoldable pub drop_numbering : ℕ → Text → Text
unfolding strip is_space is_digit_or_dot
drop_numbering zero s = s
drop_numbering (suc fuel) [] = []
drop_numbering (suc fuel) (c ∷ s) =
    let rest = drop_numbering fuel (strip is_space s) in if is_digit_or_dot c then rest else c ∷ s

unfoldable pub clean_statement : Text → Text
unfolding strip lstrip is_space is_marker drop_numbering
clean_statement raw =
    let text = strip is_space (lstrip is_marker (strip is_space raw)) in
    drop_numbering (length text) text

unfoldable pub is_obligation : Text → Bool
unfolding contains lower
is_obligation statement =
    any (λ m. contains m (map lower statement))
      (codes "must"
        ∷ codes "shall"
        ∷ codes "required"
        ∷ codes "acceptance"
        ∷ codes "rubric"
        ∷ codes "preserve"
        ∷ codes "unchanged"
        ∷ codes "verbatim"
        ∷ [])

unfoldable pub kind_of : Text → Kind
unfolding contains lower
kind_of statement =
    let has = λ (m : Text). contains m (map lower statement) in
    if has (codes "must not") || (has (codes "shall not") || has (codes "forbidden"))
    then must_not
    else if any has (
        codes "preserve"
        ∷ codes "unchanged"
        ∷ codes "verbatim"
        ∷ codes "exact"
        ∷ codes "equation"
        ∷ [])
    then content_preservation
    else if has (codes "acceptance")
    then acceptance
    else if has (codes "rubric")
    then rubric
    else must

-- `_delimited_fragments`: the state is the open fragment, if there is one.
unfoldable pub delimited_from : ℕ → Option Text → Text → List Text
unfolding strip is_space
delimited_from d open_fragment [] = []
delimited_from d none (c ∷ s) = delimited_from d (if c == d then some [] else none) s
delimited_from d (some current) (c ∷ s) =
    let rest = delimited_from d (if c == d then none else some (current ++ c ∷ [])) s in
    if c == d then strip is_space current ∷ rest else rest

-- `sorted` on a set: the members once each, in order.
unfoldable pub dedup : List Text → List Text
unfolding mem_text
dedup [] = []
dedup (t ∷ l) = let rest = dedup l in if mem_text t rest then rest else t ∷ rest

unfoldable pub expected_fragments : Text → List Text
unfolding delimited_from dedup sort_texts
expected_fragments s = sort_texts (
    dedup (
      filter nonempty (
        map (strip is_space)
          (filter nonempty (delimited_from b'`' none s ++ delimited_from b'$' none s)))))

unfoldable pub obligations_of : List Text → List Obligation
unfolding clean_statement is_obligation expected_fragments
obligations_of [] = []
obligations_of (line ∷ lines) =
    let statement = clean_statement line in
    let rest = obligations_of lines in
    if nonempty statement && is_obligation statement
    then record {
      statement = statement;
      expected_fragments = expected_fragments statement;
      status = unverified;
      evidence = [];
      waiver = false;
    }
      ∷ rest
    else rest

-- The source is its display path and the lines of its text.
unfoldable pub extract_ledger : Text → List Text → Ledger
unfolding obligations_of refresh
extract_ledger display_path lines = refresh (record {
  source_contracts = display_path ∷ [];
  obligations = obligations_of lines;
  summary = record { pass = 0; fail = 0; unverified = 0; waived = 0 };
  verdict = rejected;
})

clean_run : clean_statement (codes " - 12. Must `a b ` hold ") ≡ codes "Must `a b ` hold"
unfolding clean_statement
clean_run = refl

fragments_run : expected_fragments (codes "keep `b` and $a$ and `b`") ≡ codes "a" ∷ codes "b" ∷ []
unfolding expected_fragments
fragments_run = refl
