-- ===== src/AgentOs/Distinct.antt =====
-- Lists of texts of one length: if the first has no text twice and all of them are in the second, each
-- text is as often in the second as in the first.
use ao_operator.Base.{
  ℕ, suc, ◌+◌, ◌≤◌, ◌≡◌, refl, sym, ◌∙◌, ap, Bool, true, false, not, ◌&&◌, List, [], ◌∷◌, all,
  count, length, if◌then◌else◌, arith, Bool-cases, inl, inr,
}
use ao_operator.Text.{Text, teq, teq→eq, teq_refl, mem, first_of_each}

-- No text of the list is among those seen, or twice in the list.
abbrev pub is_fresh : List Text → List Text → Bool
is_fresh seen [] = true
is_fresh seen (t ∷ l) = not (mem t seen) && is_fresh (t ∷ seen) l

length-first_of_each-le : (seen l : List Text) → length (first_of_each seen l) ≤ length l
unfolding first_of_each
length-first_of_each-le seen [] = omega arith
length-first_of_each-le seen (t ∷ l) = elim (Bool-cases (mem t seen)) [
  | inl old ↦ ground (arith, old, length-first_of_each-le (t ∷ seen) l)
  | inr new ↦ ground (arith, new, length-first_of_each-le (t ∷ seen) l)
]

-- `len(ids) == len(set(ids))`
pub length-first_of_each :
    (seen l : List Text) → length (first_of_each seen l) ≡ length l → is_fresh seen l ≡ true
unfolding first_of_each
length-first_of_each seen [] h = refl
length-first_of_each seen (t ∷ l) h = elim (Bool-cases (mem t seen)) [
  | inl old ↦ absurd (ground (arith, old, length-first_of_each-le (t ∷ seen) l))
  | inr new ↦
      let less : length (first_of_each (t ∷ seen) l) ≡ length l = ground (arith, new, h) in
      ground (arith, new, length-first_of_each (t ∷ seen) l less)
]

-- The list without the first occurrence of a text.
abbrev pub without : Text → List Text → List Text
without t [] = []
without t (u ∷ l) = let rest = without t l in if teq t u then l else u ∷ rest

length-without : (t : Text) (l : List Text) → mem t l ≡ true → length l ≡ suc (length (without t l))
length-without t [] h = absurd (ground arith)
length-without t (u ∷ l) h = elim (Bool-cases (teq t u)) [
  | inl same ↦ ground (arith, same)
  | inr other ↦ ground (arith, other, length-without t l)
]

count-without :
    (t x : Text) (l : List Text)
    → mem x l ≡ true
    → count (teq t) l ≡ (if teq t x then 1 else 0) + count (teq t) (without x l)
count-without t x [] h = absurd (ground arith)
count-without t x (u ∷ l) h = elim (Bool-cases (teq x u)) [
  | inl same ↦ ground (arith, same, ap (teq t) (teq→eq x u same))
  | inr other ↦
      let later : mem x l ≡ true = ground (arith, other, h) in
      ground (arith, other, count-without t x l later)
]

mem-without :
    (t x : Text) (l : List Text) → teq t x ≡ false → mem t l ≡ true → mem t (without x l) ≡ true
mem-without t x [] apart h = absurd (ground arith)
mem-without t x (u ∷ l) apart h = elim (Bool-cases (teq x u)) [
  | inl same ↦ ground (arith, same, h, sym (ap (teq t) (teq→eq x u same)) ∙ apart)
  | inr other ↦ elim (Bool-cases (teq t u)) [
    | inl here ↦ ground (arith, other, here)
    | inr there ↦
        let later : mem t l ≡ true = ground (arith, there, h) in
        ground (arith, other, mem-without t x l apart later)
  ]
]

mem_ne : (t x : Text) (seen : List Text) → mem x seen ≡ true → mem t seen ≡ false → teq t x ≡ false
mem_ne t x seen old new = elim (Bool-cases (teq t x)) [
  | inl same ↦ absurd (ground (arith, old, new, ap (λ y. mem y seen) (teq→eq t x same)))
  | inr other ↦ other
]

all-mem-without :
    (x : Text) (seen l ys : List Text)
    → mem x seen ≡ true
    → is_fresh seen l ≡ true
    → all (λ t. mem t ys) l ≡ true
    → all (λ t. mem t (without x ys)) l ≡ true
all-mem-without x seen [] ys old fresh h = refl
all-mem-without x seen (t ∷ l) ys old fresh h =
    let new : mem t seen ≡ false = ground (arith, fresh) in
    let later : is_fresh (t ∷ seen) l ≡ true = ground (arith, fresh) in
    let here : mem t ys ≡ true = ground (arith, h) in
    let rest : all (λ t. mem t ys) l ≡ true = ground (arith, h) in
    let still : mem x (t ∷ seen) ≡ true = ground (arith, old) in
    ground (
      arith,
      mem-without t x ys (mem_ne t x seen old new) here,
      all-mem-without x (t ∷ seen) l ys still later rest,
    )

pub count-fresh :
    (seen l ys : List Text)
    → is_fresh seen l ≡ true
    → length ys ≡ length l
    → all (λ t. mem t ys) l ≡ true
    → (t : Text) → count (teq t) ys ≡ count (teq t) l
count-fresh seen [] [] fresh same h t = refl
count-fresh seen [] (y ∷ ys) fresh same h t = absurd (omega (arith, same))
count-fresh seen (x ∷ l) ys fresh same h t =
    let here : mem x ys ≡ true = ground (arith, h) in
    let rest : all (λ t. mem t ys) l ≡ true = ground (arith, h) in
    let later : is_fresh (x ∷ seen) l ≡ true = ground (arith, fresh) in
    let seen_x : mem x (x ∷ seen) ≡ true = ground (arith, teq_refl x) in
    let less : length (without x ys) ≡ length l = omega (arith, same, length-without x ys here) in
    count-without t x ys here
    ∙ ap (λ (n : ℕ). (if teq t x then 1 else 0) + n)
        (count-fresh (x ∷ seen) l (without x ys) later less
          (all-mem-without x (x ∷ seen) l ys seen_x later rest) t)
