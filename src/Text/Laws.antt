-- ===== src/Text/Laws.antt =====
-- The laws of the text methods.
use ao_operator.Base.{
  ℕ, ◌≡◌, ◌≢◌, refl, ap, ◌↔◌, Bool, true, false, not, inl, inr, some, [], ◌∷◌, ◌++◌, arith, ◌==◌,
  length, length-append, all, Bool-cases,
}
use ao_operator.Text.Defs.{
  Text, teq, remove_prefix, remove_suffix, split_after, lstrip, rstrip, strip, cons_stripped,
}

pub teq→eq : (a b : Text) → teq a b ≡ true → a ≡ b
unfolding teq
teq→eq [] [] h = refl
teq→eq [] (y ∷ ys) h = cc
teq→eq (x ∷ xs) [] h = cc
teq→eq (x ∷ xs) (y ∷ ys) h = ground (arith, teq→eq xs ys)

pub teq_refl : (a : Text) → teq a a ≡ true
unfolding teq
teq_refl [] = refl
teq_refl (x ∷ xs) = ground (arith, teq_refl xs)

pub teq_iff : (a b : Text) → (teq a b ≡ true) ↔ (a ≡ b)
teq_iff a b = (teq→eq a b, λ e. rw (← e) (teq_refl a))

pub teq-length_ne : (a b : Text) → length a ≢ length b → teq a b ≡ false
teq-length_ne a b h = elim (Bool-cases (teq a b)) [
  | inl t ↦ absurd (h (ap length (teq→eq a b t)))
  | inr f ↦ f
]

pub remove_prefix-append : (p s : Text) → remove_prefix p (p ++ s) ≡ some s
unfolding remove_prefix
remove_prefix-append [] s = refl
remove_prefix-append (c ∷ p) s = ground (arith, remove_prefix-append p s)

pub remove_prefix-eq-some : (p s r : Text) → remove_prefix p s ≡ some r → s ≡ p ++ r
unfolding remove_prefix
remove_prefix-eq-some [] s r h = ground arith
remove_prefix-eq-some (c ∷ p) [] r h = cc
remove_prefix-eq-some (c ∷ p) (d ∷ s) r h = ground (arith, remove_prefix-eq-some p s r)

pub remove_suffix-append : (e s : Text) → remove_suffix e (s ++ e) ≡ some s
unfolding remove_suffix
remove_suffix-append e (c ∷ s) =
    ground (arith, remove_suffix-append e s, teq-length_ne (c ∷ s ++ e) e, length-append s e)
remove_suffix-append [] [] = refl
remove_suffix-append (c ∷ e) [] = ground (arith, teq_refl (c ∷ e))

pub teq_ne : (a b : Text) → a ≢ b → teq a b ≡ false
teq_ne a b h = elim (Bool-cases (teq a b)) [ inl t ↦ absurd (h (teq→eq a b t)) | inr f ↦ f ]

-- Texts all of whose characters fail the test are left alone.
pub lstrip_none : (p : ℕ → Bool) (s : Text) → all (λ c. not (p c)) s ≡ true → lstrip p s ≡ s
unfolding lstrip
lstrip_none p [] h = refl
lstrip_none p (c ∷ s) h = ground arith

pub rstrip_none : (p : ℕ → Bool) (s : Text) → all (λ c. not (p c)) s ≡ true → rstrip p s ≡ s
unfolding rstrip
rstrip_none p [] h = refl
rstrip_none p (c ∷ []) h = ground arith
rstrip_none p (c ∷ d ∷ s) h = rw (rstrip_none p (d ∷ s) (ground arith))

pub strip_none : (p : ℕ → Bool) (s : Text) → all (λ c. not (p c)) s ≡ true → strip p s ≡ s
unfolding strip
strip_none p s h = rw (lstrip_none p s h) (rstrip_none p s h)

-- What every character of a text satisfies, every character of the stripped text does.
pub all-lstrip : (p q : ℕ → Bool) (s : Text) → all q s ≡ true → all q (lstrip p s) ≡ true
unfolding lstrip
all-lstrip p q [] h = refl
all-lstrip p q (c ∷ s) h = ground (arith, all-lstrip p q s)

all-cons_stripped :
    (p q : ℕ → Bool) (c : ℕ) (s : Text)
    → q c ≡ true
    → all q s ≡ true
    → all q (cons_stripped p c s) ≡ true
all-cons_stripped p q c [] h k = ground arith
all-cons_stripped p q c (d ∷ s) h k = ground arith

pub all-rstrip : (p q : ℕ → Bool) (s : Text) → all q s ≡ true → all q (rstrip p s) ≡ true
unfolding rstrip
all-rstrip p q [] h = refl
all-rstrip p q (c ∷ s) h =
    all-cons_stripped p q c (rstrip p s) (ground arith) (all-rstrip p q s (ground arith))

pub all-strip : (p q : ℕ → Bool) (s : Text) → all q s ≡ true → all q (strip p s) ≡ true
unfolding strip
all-strip p q s h = all-rstrip p q (lstrip p s) (all-lstrip p q s h)

abbrev starts_clean : (ℕ → Bool) → Text → Bool
starts_clean p [] = true
starts_clean p (c ∷ s) = not (p c)

lstrip-starts_clean : (p : ℕ → Bool) (s : Text) → starts_clean p (lstrip p s) ≡ true
unfolding lstrip
lstrip-starts_clean p [] = refl
lstrip-starts_clean p (c ∷ s) = ground (arith, lstrip-starts_clean p s)

lstrip_clean : (p : ℕ → Bool) (s : Text) → starts_clean p s ≡ true → lstrip p s ≡ s
unfolding lstrip
lstrip_clean p [] h = refl
lstrip_clean p (c ∷ s) h = ground arith

cons_stripped-starts_clean :
    (p : ℕ → Bool) (c : ℕ) (s : Text)
    → not (p c) ≡ true
    → starts_clean p (cons_stripped p c s) ≡ true
cons_stripped-starts_clean p c [] h = ground arith
cons_stripped-starts_clean p c (d ∷ s) h = h

rstrip-starts_clean :
    (p : ℕ → Bool) (s : Text) → starts_clean p s ≡ true → starts_clean p (rstrip p s) ≡ true
unfolding rstrip
rstrip-starts_clean p [] h = refl
rstrip-starts_clean p (c ∷ s) h = cons_stripped-starts_clean p c (rstrip p s) h

cons_stripped_idem :
    (p : ℕ → Bool) (c : ℕ) (s : Text)
    → rstrip p s ≡ s
    → rstrip p (cons_stripped p c s) ≡ cons_stripped p c s
unfolding rstrip
cons_stripped_idem p c [] h = ground arith
cons_stripped_idem p c (d ∷ s) h = rw h

rstrip_idem : (p : ℕ → Bool) (s : Text) → rstrip p (rstrip p s) ≡ rstrip p s
unfolding rstrip
rstrip_idem p [] = refl
rstrip_idem p (c ∷ s) = cons_stripped_idem p c (rstrip p s) (rstrip_idem p s)

pub strip_idem : (p : ℕ → Bool) (s : Text) → strip p (strip p s) ≡ strip p s
unfolding strip
strip_idem p s =
    rw (lstrip_clean p _ (rstrip-starts_clean p _ (lstrip-starts_clean p s)))
      (rstrip_idem p (lstrip p s))

-- The first occurrence of a separator of two equal characters is the one that was put there.
pub split_after-append :
    (u : ℕ) (t r : Text)
    → all (λ c. not (c == u)) t ≡ true
    → split_after (u ∷ u ∷ []) (t ++ (u ∷ u ∷ r)) ≡ some r
unfolding split_after remove_prefix
split_after-append u [] r h = ground arith
split_after-append u (c ∷ t) r h = ground (arith, split_after-append u t r)
