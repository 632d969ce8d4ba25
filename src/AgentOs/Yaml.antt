-- ===== src/AgentOs/Yaml.antt =====
-- scripts/agent_os_runspec_validator.py: `parse_yaml_task_ids`, that is `re.findall` of
-- `^\s+- id:\s*([A-Za-z0-9_.-]+)\s*$` on all lines of a text. White space is that of ASCII.
use ao_operator.Base.{
  ℕ, zero, suc, ◌-◌, ◌≡◌, refl, Bool, true, not, ◌&&◌, ◌||◌, Option, none, some, List, [], ◌∷◌,
  ◌==◌, leb, length, if◌then◌else◌,
}
use ao_operator.Base.Empty.{is_empty}
use ao_operator.Text.{Text, codes, is_space, lstrip, remove_prefix}

abbrev pub is_id_char : ℕ → Bool
is_id_char c =
    leb b'A' c && leb c b'Z'
    || leb b'a' c && leb c b'z'
    || leb b'0' c && leb c b'9'
    || c == b'_'
    || c == b'.'
    || c == b'-'

-- The first characters that pass the test.
unfoldable pub prefix_of : (ℕ → Bool) → Text → Text
prefix_of p [] = []
prefix_of p (c ∷ s) = let rest = prefix_of p s in if p c then c ∷ rest else []

-- Where the white space `\s*$` ends: behind all of it at the end of the text, and else before the last
-- line feed of it, if there is one. The text left is given.
unfoldable pub line_end : Text → Option Text
unfolding is_space
line_end [] = some []
line_end (c ∷ s) =
    let later = line_end s in
    if not (is_space c)
    then none
    else elim later [ some rest ↦ some rest | none ↦ if c == 10 then some (c ∷ s) else none ]

-- A match from a line start on: the id, and the text behind the match.
unfoldable pub id_at : Text → Option (Text × Text)
unfolding is_space lstrip remove_prefix prefix_of line_end
id_at [] = none
id_at (c ∷ s) =
    if not (is_space c) then none else elim (remove_prefix (codes "- id:") (lstrip is_space s)) [
      | none ↦ none
      | some rest ↦
          let id = prefix_of is_id_char (lstrip is_space rest) in
          elim (line_end (lstrip is_id_char (lstrip is_space rest))) [
            | none ↦ none
            | some behind ↦ if is_empty id then none else some (id, behind)
          ]
    ]

-- The matches, one behind the other: `skip` characters belong to the last match, and the flag says
-- whether the text stands at a line start.
unfoldable pub ids_from : ℕ → Bool → Text → List Text
unfolding id_at
ids_from skip at_start [] = []
ids_from (suc skip) at_start (c ∷ s) = ids_from skip (c == 10) s
ids_from zero at_start (c ∷ s) =
    let found = if at_start then id_at (c ∷ s) else none in
    let onward = λ (skip : ℕ). ids_from skip (c == 10) s in
    elim found [ none ↦ onward 0 | some (id, behind) ↦ id ∷ onward (length s - length behind) ]

unfoldable pub parse_yaml_task_ids : Text → List Text
unfolding ids_from
parse_yaml_task_ids body = ids_from 0 true body

two_ids :
    parse_yaml_task_ids (codes "kind: Run\n  - id: a\n    x: 1\n\n  - id: b-2 \n")
    ≡ codes "a" ∷ codes "b-2" ∷ []
unfolding parse_yaml_task_ids
two_ids = refl

-- An empty line is white space before an entry without indentation.
blank_before : parse_yaml_task_ids (codes "- id: a\n\n- id: b\n- id: c") ≡ codes "b" ∷ []
unfolding parse_yaml_task_ids
blank_before = refl
