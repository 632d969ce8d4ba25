-- ===== src/Text/Defs.antt =====
-- Equality, prefixes, suffixes, splitting and stripping of texts.
use Prim.Native.Char.{code}
use ao_operator.Base.{
  ℕ, zero, suc, ◌+◌, ◌/◌, ◌%◌, Bool, true, false, ◌&&◌, ◌||◌, Option, none, some, List, [], ◌∷◌,
  ◌==◌, leb, ltb, if◌then◌else◌, is_some, any, String,
}
use mathlib.Core.Option

abbrev pub Text : Type 0
Text = List ℕ

-- The code points of a literal.
abbrev pub codes : String → Text
codes String.[] = []
codes (String.◌∷◌ c s) = code c ∷ codes s

unfoldable pub teq : Text → Text → Bool
teq [] [] = true
teq (x ∷ xs) (y ∷ ys) = x == y && teq xs ys
teq _ _ = false

-- `s.removeprefix(p)`, if `s` starts with `p`.
unfoldable pub remove_prefix : Text → Text → Option Text
remove_prefix [] s = some s
remove_prefix (p ∷ ps) [] = none
remove_prefix (p ∷ ps) (c ∷ s) = let rest = remove_prefix ps s in if p == c then rest else none

unfoldable pub starts_with : Text → Text → Bool
unfolding remove_prefix
starts_with p s = is_some (remove_prefix p s)

-- `s.removesuffix(e)`, if `s` ends with `e`.
unfoldable pub remove_suffix : Text → Text → Option Text
unfolding teq
remove_suffix e [] = if teq [] e then some [] else none
remove_suffix e (c ∷ s) =
    let rest = Option.map (λ r. c ∷ r) (remove_suffix e s) in
    if teq (c ∷ s) e then some [] else rest

unfoldable pub ends_with : Text → Text → Bool
unfolding remove_suffix
ends_with e s = is_some (remove_suffix e s)

-- `s.split(sep, 1)[1]`, if `sep` occurs in `s`.
unfoldable pub split_after : Text → Text → Option Text
unfolding remove_prefix
split_after sep [] = remove_prefix sep []
split_after sep (c ∷ s) =
    let rest = split_after sep s in
    elim (remove_prefix sep (c ∷ s)) [ none ↦ rest | some r ↦ some r ]

-- `sep in s`
unfoldable pub contains : Text → Text → Bool
unfolding split_after
contains sep s = is_some (split_after sep s)

unfoldable pub lstrip : (ℕ → Bool) → Text → Text
lstrip p [] = []
lstrip p (c ∷ s) = let rest = lstrip p s in if p c then rest else c ∷ s

abbrev pub cons_stripped : (ℕ → Bool) → ℕ → Text → Text
cons_stripped p c [] = if p c then [] else c ∷ []
cons_stripped p c (d ∷ s) = c ∷ d ∷ s

unfoldable pub rstrip : (ℕ → Bool) → Text → Text
rstrip p [] = []
rstrip p (c ∷ s) = cons_stripped p c (rstrip p s)

-- `s.strip()` and `s.strip(chars)`, by the set of characters that go.
unfoldable pub strip : (ℕ → Bool) → Text → Text
unfolding lstrip rstrip
strip p s = rstrip p (lstrip p s)

-- `str.isspace` on ASCII: tab to carriage return, the four separators, and the space.
unfoldable pub is_space : ℕ → Bool
is_space c = leb 9 c && leb c 13 || leb 28 c && leb c 32

unfoldable pub lower : ℕ → ℕ
lower c = if leb 65 c && leb c 90 then c + 32 else c

-- `a <= b` on texts: the order of the code points.
unfoldable pub text_le : Text → Text → Bool
text_le [] b = true
text_le (x ∷ a) [] = false
text_le (x ∷ a) (y ∷ b) = let rest = text_le a b in if x == y then rest else ltb x y

unfoldable pub insert_text : Text → List Text → List Text
unfolding text_le
insert_text a [] = a ∷ []
insert_text a (b ∷ l) = let rest = insert_text a l in if text_le a b then a ∷ b ∷ l else b ∷ rest

unfoldable pub sort_texts : List Text → List Text
unfolding insert_text
sort_texts [] = []
sort_texts (a ∷ l) = insert_text a (sort_texts l)

-- `str(n)`; a number has fewer digits than the fuel `n + 1`.
unfoldable pub decimal_from : ℕ → ℕ → Text → Text
decimal_from zero n rest = rest
decimal_from (suc fuel) n rest =
    let digits = (48 + n % 10) ∷ rest in
    let more = decimal_from fuel (n / 10) digits in if n / 10 == 0 then digits else more

unfoldable pub decimal : ℕ → Text
unfolding decimal_from
decimal n = decimal_from (n + 1) n []

-- `t in l`
abbrev pub mem : Text → List Text → Bool
mem t l = any (teq t) l

-- `list(dict.fromkeys(…))`, behind the texts that were seen.
unfoldable pub first_of_each : List Text → List Text → List Text
unfolding teq
first_of_each seen [] = []
first_of_each seen (t ∷ l) =
    let rest = first_of_each (t ∷ seen) l in if mem t seen then rest else t ∷ rest
