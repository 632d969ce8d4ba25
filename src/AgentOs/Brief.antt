-- ===== src/AgentOs/Brief.antt =====
-- scripts/factory_run.py: the classification and the shape of a brief, and the gate of the shape.
use ao_operator.Base.{
  ℕ, Bool, false, not, ◌&&◌, ◌||◌, List, [], ◌∷◌, ◌++◌, ◌==◌, leb, map, any, count, filter, length,
  if◌then◌else◌,
}
use ao_operator.Text.{Text, codes, lower, contains, strip, is_space, starts_with}

pub data Shape : Type 0 where
  greenfield bug_fix refactor : Shape

pub data Classification : Type 0 where
  trivial moderate complex : Classification

abbrev pub mentions_any : List Text → Text → Bool
mentions_any words text = any (λ w. contains w text) words

abbrev pub bug_words : List Text
bug_words =
    codes "bug"
    ∷ codes "failing"
    ∷ codes "regression"
    ∷ codes "error"
    ∷ codes "broken"
    ∷ codes "fix"
    ∷ []

abbrev pub refactor_words : List Text
refactor_words =
    codes "refactor"
    ∷ codes "reorganize"
    ∷ codes "preserve behavior"
    ∷ codes "cleanup"
    ∷ codes "migrate"
    ∷ []

-- The three forms that name a shape.
abbrev pub names_shape : Text → Text → Bool
names_shape shape text =
    mentions_any
      ((codes "shape: " ++ shape)
        ∷ (codes "shape it as " ++ shape)
        ∷ (codes "shape as " ++ shape)
        ∷ [])
      text

abbrev pub shape_of : Text → Shape
shape_of text =
    if names_shape (codes "greenfield") text
    then greenfield
    else if names_shape (codes "bug-fix") text
    then bug_fix
    else if names_shape (codes "refactor") text
    then refactor
    else if mentions_any bug_words text
    then bug_fix
    else if mentions_any refactor_words text
    then refactor
    else greenfield

abbrev pub complex_terms : List Text
complex_terms =
    codes "complex"
    ∷ codes "multiple"
    ∷ codes "frontend"
    ∷ codes "backend"
    ∷ codes "database"
    ∷ codes "factory"
    ∷ codes "orchestration"
    ∷ codes "users"
    ∷ codes "projects"
    ∷ codes "tasks"
    ∷ codes "comments"
    ∷ []

-- The line breaks of ASCII.
abbrev pub is_break : ℕ → Bool
is_break c = leb 10 c && leb c 13 || leb 28 c && leb c 30

abbrev pub cons_line : ℕ → List Text → List Text
cons_line c [] = (c ∷ []) ∷ []
cons_line c (l ∷ lines) = (c ∷ l) ∷ lines

abbrev pub starts_feed : Text → Bool
starts_feed [] = false
starts_feed (c ∷ s) = c == 10

-- `brief.splitlines()`; a carriage return before a line feed breaks no line of its own.
unfoldable pub splitlines : Text → List Text
splitlines [] = []
splitlines (c ∷ s) =
    let rest = splitlines s in
    if c == 13 && starts_feed s then rest else if is_break c then [] ∷ rest else cons_line c rest

abbrev pub is_bullet : Text → Bool
is_bullet line = starts_with (codes "-") (strip is_space line)

unfoldable pub classification_of : Text → Classification
unfolding contains lower splitlines starts_with strip is_space
classification_of brief =
    let text = map lower brief in
    if leb 3 (count (λ t. contains t text) complex_terms) || contains (codes "complex") text
    then complex
    else if leb 3 (length (filter is_bullet (splitlines brief)))
    then moderate
    else trivial

unfoldable pub classify : Text → Classification × Shape
unfolding contains lower classification_of
classify brief = (classification_of brief, shape_of (map lower brief))

-- The words that satisfy the gate of a shape.
abbrev pub gate_words : Shape → List Text
gate_words greenfield =
    codes "build" ∷ codes "create" ∷ codes "produce" ∷ codes "use factory" ∷ codes "scope" ∷ []
gate_words bug_fix =
    codes "reproducer evidence:"
    ∷ codes "failing reproducer evidence:"
    ∷ codes "failing test:"
    ∷ codes "red-to-green evidence:"
    ∷ []
gate_words refactor =
    codes "pinning suite:"
    ∷ codes "pinned test:"
    ∷ codes "preservation test:"
    ∷ codes "golden test:"
    ∷ []

-- Whether the gate blocks.
unfoldable pub shape_gate : Shape → Text → Bool
unfolding contains lower
shape_gate shape brief = not (mentions_any (gate_words shape) (map lower brief))
