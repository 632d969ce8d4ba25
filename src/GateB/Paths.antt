-- ===== src/GateB/Paths.antt =====
-- scripts/gate_b.py: `concrete_path`, `render_slug` and `normalize_slice_list`.
use ao_operator.Base.{
  ℕ, zero, suc, Bool, not, ◌||◌, Option, none, some, List, [], ◌∷◌, ◌++◌, ◌==◌, if◌then◌else◌,
  length,
}
use ao_operator.Base.Empty.{is_empty}
use ao_operator.Text.{Text, codes, teq, strip, is_space, contains, ends_with, remove_prefix}

abbrev pub is_tick : ℕ → Bool
is_tick c = c == b'`'

abbrev pub slug_mark : Text
slug_mark = codes "<slug>"

-- `s.replace(old, new)` for an `old` that is not empty; a text has as many rounds as characters.
unfoldable pub replace_from : ℕ → Text → Text → Text → Text
unfolding remove_prefix
replace_from zero old new s = s
replace_from (suc fuel) old new [] = []
replace_from (suc fuel) old new (c ∷ s) = elim (remove_prefix old (c ∷ s)) [
  | none ↦ c ∷ replace_from fuel old new s
  | some rest ↦ new ++ replace_from fuel old new rest
]

unfoldable pub render_slug : Text → Text → Text
unfolding replace_from
render_slug slug value = replace_from (length value) slug_mark slug value

-- The path itself, or nothing for what is no path below a directory.
unfoldable pub concrete_path : Text → Text
unfolding strip is_space contains ends_with teq
concrete_path value =
    let candidate = strip is_tick (strip is_space value) in
    if is_empty candidate || (teq candidate (codes ".") || ends_with (codes "/") candidate)
    then []
    else if contains slug_mark candidate || contains (codes " ") candidate
    then []
    else if not (contains (codes "/") candidate)
    then []
    else candidate

-- The texts of a JSON list, which are some: items of other types are none.
unfoldable pub texts_of : Text → List (Option Text) → List Text
unfolding render_slug
texts_of slug [] = []
texts_of slug (none ∷ items) = texts_of slug items
texts_of slug (some [] ∷ items) = texts_of slug items
texts_of slug (some (c ∷ t) ∷ items) = render_slug slug (c ∷ t) ∷ texts_of slug items

-- `none` is a value that is no list.
unfoldable pub normalize_slice_list : Text → Option (List (Option Text)) → List Text
unfolding texts_of
normalize_slice_list slug none = []
normalize_slice_list slug (some items) = texts_of slug items
