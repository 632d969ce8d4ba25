-- ===== src/GateR/Status.antt =====
-- scripts/gate_r.py: what a role artifact says of its result and of its artifact. The regular
-- expressions are read on text with line feeds; white space and capitals are those of ASCII.
use ao_operator.Base.{
  ℕ, Bool, true, not, ◌&&◌, ◌||◌, Option, none, some, [], ◌∷◌, ◌==◌, leb, if◌then◌else◌, any, map,
  ◌≡◌, refl,
}
use ao_operator.Base.Empty.{is_empty}
use ao_operator.Text.{
  Text, codes, contains, lower, lstrip, strip, is_space, remove_prefix, starts_with,
}

abbrev pub is_feed : ℕ → Bool
is_feed c = c == 10

-- `[A-Z_]`
abbrev pub is_capital : ℕ → Bool
is_capital c = leb b'A' c && leb c b'Z' || c == b'_'

unfoldable pub take_while : (ℕ → Bool) → Text → Text
take_while p [] = []
take_while p (c ∷ s) = let rest = take_while p s in if p c then c ∷ rest else []

abbrev pub at_line_end : Text → Bool
at_line_end [] = true
at_line_end (c ∷ s) = is_feed c

-- `Result:\s*([A-Z_]+)\s*$` from a line's start on: behind the capitals only white space is left on
-- their line.
unfoldable pub result_at : Text → Option Text
unfolding remove_prefix lstrip take_while is_space
result_at s = elim (remove_prefix (codes "Result:") s) [
  | none ↦ none
  | some rest ↦
      let word = take_while is_capital (lstrip is_space rest) in
      let behind =
        lstrip (λ c. is_space c && not (is_feed c)) (lstrip is_capital (lstrip is_space rest)) in
      if not (is_empty word) && at_line_end behind then some word else none
]

-- The first line start at which a pattern matches; the flag says whether the text stands at one.
unfoldable pub first_line : (Text → Option Text) → Bool → Text → Option Text
first_line f start [] = if start then f [] else none
first_line f start (c ∷ s) =
    let later = first_line f (is_feed c) s in
    elim (if start then f (c ∷ s) else none) [ none ↦ later | some t ↦ some t ]

abbrev pub or_empty : Option Text → Text
or_empty none = []
or_empty (some t) = t

unfoldable pub status_result : Text → Text
unfolding result_at first_line
status_result text = or_empty (first_line result_at true text)

-- `Artifact:\s*(.+?)\s*$`, stripped of white space and of back ticks.
unfoldable pub artifact_at : Text → Option Text
unfolding remove_prefix lstrip take_while is_space strip
artifact_at s = elim (remove_prefix (codes "Artifact:") s) [
  | none ↦ none
  | some rest ↦ some (
      strip (λ c. c == b'`')
        (strip is_space (take_while (λ c. not (is_feed c)) (lstrip is_space rest))))
]

unfoldable pub status_artifact : Text → Text
unfolding artifact_at first_line
status_artifact text = or_empty (first_line artifact_at true text)

unfoldable pub artifact_is_concrete_path : Text → Bool
unfolding contains starts_with lower
artifact_is_concrete_path value =
    not (is_empty value)
    && contains (codes "/") value
    && (not (
          any (λ p. starts_with p (map lower value))
            (codes "event" ∷ codes "ao event" ∷ codes "run event" ∷ []))
        && not (any (λ p. starts_with p value) (codes "http://" ∷ codes "https://" ∷ [])))

result_run : status_result (codes "# x\nResult: DONE \nArtifact:  `a/b.md` \n") ≡ codes "DONE"
unfolding status_result
result_run = refl

artifact_run : status_artifact (codes "# x\nResult: DONE \nArtifact:  `a/b.md` \n") ≡ codes "a/b.md"
unfolding status_artifact
artifact_run = refl
