-- ===== src/Closure/Evidence.antt =====
-- scripts/verify_closure.py: the regular expression that finds a reviewer's evidence in an evaluation.
-- Each combinator is a part of the pattern, followed by what has to match behind it; the parts that
-- repeat try each number of repetitions. The text and the name are in lower case, since the pattern
-- ignores the case; white space is that of ASCII.
use ao_operator.Base.{
  ℕ, zero, suc, Bool, true, false, not, ◌&&◌, ◌||◌, none, some, [], ◌∷◌, ◌==◌, map, ◌≡◌, refl,
}
use ao_operator.Text.{Text, codes, lower, is_space, remove_prefix}

abbrev pub always : Text → Bool
always s = true

unfoldable pub literal : Text → (Text → Bool) → Text → Bool
unfolding remove_prefix
literal w next s = elim (remove_prefix w s) [ none ↦ false | some rest ↦ next rest ]

-- `c?`
abbrev pub optional : ℕ → (Text → Bool) → Text → Bool
optional c next [] = next []
optional c next (d ∷ s) = next (d ∷ s) || d == c && next s

-- `\s*` and `\s+`
unfoldable pub spaces : (Text → Bool) → Text → Bool
unfolding is_space
spaces next [] = next []
spaces next (c ∷ s) = next (c ∷ s) || is_space c && spaces next s

unfoldable pub some_spaces : (Text → Bool) → Text → Bool
unfolding is_space spaces
some_spaces next [] = false
some_spaces next (c ∷ s) = is_space c && spaces next s

-- `[^\n]*` and `[^\n]{0,n}`
unfoldable pub on_line : (Text → Bool) → Text → Bool
on_line next [] = next []
on_line next (c ∷ s) = next (c ∷ s) || not (c == 10) && on_line next s

unfoldable pub within : ℕ → (Text → Bool) → Text → Bool
within n next [] = next []
within zero next (c ∷ s) = next (c ∷ s)
within (suc n) next (c ∷ s) = next (c ∷ s) || not (c == 10) && within n next s

-- `pattern.search`
unfoldable pub search_text : (Text → Bool) → Text → Bool
search_text p [] = p []
search_text p (c ∷ s) = p (c ∷ s) || search_text p s

-- `\*\*Reviewers?\*\*:[^\n]*` and the name
unfoldable pub pattern_a : Text → Text → Bool
unfolding literal on_line
pattern_a name =
    literal (codes "**reviewer")
      (optional b's' (literal (codes "**:") (on_line (literal name always))))

-- `-\s+` and the name in backticks or not, and `\s*:\s*APPROVED`
unfoldable pub pattern_b : Text → Text → Bool
unfolding literal spaces some_spaces
pattern_b name = literal (codes "-") (
    some_spaces (
      optional b'`' (
        literal name (
          optional b'`'
            (spaces (literal (codes ":") (spaces (literal (codes "approved") always))))))))

abbrev pub verdict_words : Text → Bool
verdict_words s =
    literal (codes "approved") always s
    || literal (codes "false") (some_spaces (literal (codes "positive") always)) s
    || literal (codes "inline") (some_spaces (literal (codes "review") always)) s

-- The name, and within 140 characters of its line a word of approval.
unfoldable pub pattern_cd : Text → Text → Bool
unfolding literal within some_spaces
pattern_cd name = optional b'`' (literal name (optional b'`' (within 140 verdict_words)))

-- `_reviewer_evidence_present`
unfoldable pub reviewer_evidence_present : Text → Text → Bool
unfolding lower search_text pattern_a pattern_b pattern_cd
reviewer_evidence_present eval_text reviewer =
    let text = map lower eval_text in
    let name = map lower reviewer in
    search_text (λ s. pattern_a name s || pattern_b name s || pattern_cd name s) text

abbrev security : Text
security = codes "security"

evidence_bullet :
    reviewer_evidence_present (codes "Review:\n- `security` : Approved\n") security ≡ true
unfolding reviewer_evidence_present
evidence_bullet = refl

evidence_bold_colon :
    reviewer_evidence_present (codes "**Reviewers**: docs, Security\n") security ≡ true
unfolding reviewer_evidence_present
evidence_bold_colon = refl

-- The form that the function's own documentation gives, with the colon inside the asterisks.
evidence_documented :
    reviewer_evidence_present (codes "**Reviewers:** docs, security\n") security ≡ false
unfolding reviewer_evidence_present
evidence_documented = refl

evidence_other_line :
    reviewer_evidence_present (codes "security looked at it\nAPPROVED") security ≡ false
unfolding reviewer_evidence_present
evidence_other_line = refl
