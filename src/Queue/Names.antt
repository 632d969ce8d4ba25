-- ===== src/Queue/Names.antt =====
-- scripts/factory_queue.py: slugs and task file names.
use ao_operator.Base.{
  ℕ, Bool, false, not, ◌&&◌, ◌||◌, Option, none, some, [], ◌∷◌, ◌++◌, ◌==◌, leb, if◌then◌else◌, map,
}
use ao_operator.Text.{Text, codes, strip, lower, is_space, remove_suffix, split_after}

abbrev pub brief_suffix : Text
brief_suffix = codes ".brief.md"

abbrev pub claim_token_sep : Text
claim_token_sep = codes "__"

-- The class `[a-zA-Z0-9._-]` of the pattern in `slugify`.
unfoldable pub is_word : ℕ → Bool
is_word c =
    leb b'a' c && leb c b'z'
    || leb b'A' c && leb c b'Z'
    || leb b'0' c && leb c b'9'
    || c == b'.'
    || c == b'_'
    || c == b'-'

-- `re.sub(r"[^a-zA-Z0-9._-]+", "-", s)`; the flag says that the scan is inside a run.
unfoldable pub sub_runs : Bool → Text → Text
unfolding is_word
sub_runs in_run [] = []
sub_runs in_run (c ∷ s) =
    let rest = sub_runs (not (is_word c)) s in
    if is_word c then c ∷ rest else if in_run then rest else b'-' ∷ rest

-- The characters of `strip("-._")`.
unfoldable pub is_edge : ℕ → Bool
is_edge c = c == b'-' || c == b'.' || c == b'_'

abbrev pub or_task : Text → Text
or_task [] = codes "task"
or_task (c ∷ s) = c ∷ s

unfoldable pub slugify : Text → Text
unfolding strip lower is_space sub_runs is_edge
slugify value = or_task (strip is_edge (sub_runs false (map lower (strip is_space value))))

unfoldable pub task_filename : Text → Text
unfolding slugify
task_filename slug = slugify slug ++ brief_suffix

-- A text cut at its last dot.
unfoldable pub rsplit_dot : Text → Option (Text × Text)
rsplit_dot [] = none
rsplit_dot (c ∷ s) = elim (rsplit_dot s) [
  | some (a, b) ↦ some (c ∷ a, b)
  | none ↦ if c == b'.' then some ([], s) else none
]

-- `Path(name).stem`: the last suffix goes, unless the dot is the first or the last character.
abbrev pub stem_of : Text → Option (Text × Text) → Text
stem_of name none = name
stem_of name (some ([], b)) = name
stem_of name (some (c ∷ a, [])) = name
stem_of name (some (c ∷ a, d ∷ b)) = c ∷ a

unfoldable pub stem : Text → Text
unfolding rsplit_dot
stem name = stem_of name (rsplit_dot name)

-- The name without the brief's suffix, or the stem of any other name.
unfoldable pub task_base : Text → Text
unfolding remove_suffix stem
task_base name = elim (remove_suffix brief_suffix name) [ none ↦ stem name | some base ↦ base ]

-- The claim token goes, if there is one.
abbrev pub without_token : Text → Text
without_token base = elim (split_after claim_token_sep base) [ none ↦ base | some slug ↦ slug ]

unfoldable pub slug_from_task : Text → Text
unfolding split_after task_base
slug_from_task name = without_token (task_base name)
