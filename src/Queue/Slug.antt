-- ===== src/Queue/Slug.antt =====
-- Slugs are fixed by `slugify`, and names give back the slug they were made from.
use ao_operator.Base.{
  ℕ, ◌≡◌, ◌≢◌, refl, ap, ◌∙◌, Bool, true, false, not, ◌&&◌, none, [], ◌∷◌, ◌++◌, ◌==◌, map, all,
  arith, length, length-append, append_assoc,
}
use ao_operator.Text.{
  Text, strip, lower, is_space, split_after, strip_none, strip_idem, all-strip, split_after-append,
  remove_suffix-append,
}
use ao_operator.Queue.Names.{
  is_word, sub_runs, is_edge, or_task, slugify, task_filename, task_base, slug_from_task,
  without_token, brief_suffix, claim_token_sep,
}

-- A character that `slugify` writes: of the class, and not an upper-case letter.
abbrev is_slug_char : ℕ → Bool
is_slug_char c = is_word c && lower c == c

all-map-lower : (s : Text) → all (λ c. lower c == c) (map lower s) ≡ true
unfolding lower
all-map-lower [] = refl
all-map-lower (c ∷ s) = ground (arith, all-map-lower s)

all-sub_runs :
    (r : Bool) (s : Text)
    → all (λ c. lower c == c) s ≡ true
    → all is_slug_char (sub_runs r s) ≡ true
unfolding sub_runs lower
all-sub_runs r [] h = refl
all-sub_runs r (c ∷ s) h = ground (arith, all-sub_runs (not (is_word c)) s)

strip_space : (s : Text) → all is_slug_char s ≡ true → all (λ c. not (is_space c)) s ≡ true
unfolding is_word is_space
strip_space [] h = refl
strip_space (c ∷ s) h = ground (arith, strip_space s)

map-lower : (s : Text) → all is_slug_char s ≡ true → map lower s ≡ s
map-lower [] h = refl
map-lower (c ∷ s) h = ground (arith, map-lower s)

sub_runs_fixed : (s : Text) → all is_slug_char s ≡ true → sub_runs false s ≡ s
unfolding sub_runs
sub_runs_fixed [] h = refl
sub_runs_fixed (c ∷ s) h = ground (arith, sub_runs_fixed s)

-- The slug before the default of `or "task"`.
core : Text → Text
core value = strip is_edge (sub_runs false (map lower (strip is_space value)))

all-core : (v : Text) → all is_slug_char (core v) ≡ true
unfolding core
all-core v =
    all-strip is_edge is_slug_char _ (all-sub_runs false _ (all-map-lower (strip is_space v)))

core_fixed : (s : Text) → all is_slug_char s ≡ true → core s ≡ strip is_edge s
unfolding core
core_fixed s h =
    rw (strip_none is_space s (strip_space s h), map-lower s h, sub_runs_fixed s h) refl

core_idem : (v : Text) → core (core v) ≡ core v
core_idem v =
    core_fixed (core v) (all-core v)
    ∙ unfold core in strip_idem is_edge (sub_runs false (map lower (strip is_space v)))

or_task_fixed : (w : Text) → core w ≡ w → slugify (or_task w) ≡ or_task w
unfolding slugify core
or_task_fixed [] h = refl
or_task_fixed (c ∷ s) h = ap or_task h

-- A slug is its own slug.
pub slugify_idem : (v : Text) → slugify (slugify v) ≡ slugify v
unfolding slugify core
slugify_idem v = or_task_fixed (core v) (core_idem v)

slug_from_task-append : (s : Text) → slug_from_task (s ++ brief_suffix) ≡ without_token s
slug_from_task-append s =
    unfold slug_from_task in rw (remove_suffix-append brief_suffix s, task_base) refl

pub slug_from_task-base :
    (s : Text) → split_after claim_token_sep s ≡ none → slug_from_task (s ++ brief_suffix) ≡ s
slug_from_task-base s h = rw (slug_from_task-append s, h, without_token) refl

-- The file name of a task gives its slug back, if the slug has no claim-token separator in it.
pub slug_from_task-task_filename :
    (v : Text)
    → split_after claim_token_sep (slugify v) ≡ none
    → slug_from_task (task_filename v) ≡ slugify v
unfolding task_filename
slug_from_task-task_filename v = slug_from_task-base (slugify v)

-- The first separator ends what is taken for a token.
pub slug_from_task-cut :
    (token s : Text)
    → all (λ c. not (c == b'_')) token ≡ true
    → slug_from_task (token ++ (claim_token_sep ++ (s ++ brief_suffix))) ≡ s
slug_from_task-cut token s h =
    let e : (token ++ (claim_token_sep ++ s)) ++ brief_suffix
        ≡ token ++ (claim_token_sep ++ (s ++ brief_suffix)) =
      append_assoc token (claim_token_sep ++ s) brief_suffix in
    rw (← e) (
      slug_from_task-append (token ++ (claim_token_sep ++ s))
      ∙ rw (split_after-append b'_' token s h, without_token) refl)

-- The name of a claimed task gives its slug back, whatever the slug is, if the token holds no
-- underscore.
pub slug_from_task-claimed :
    (token v : Text)
    → all (λ c. not (c == b'_')) token ≡ true
    → slug_from_task (token ++ (claim_token_sep ++ task_filename v)) ≡ slugify v
unfolding task_filename
slug_from_task-claimed token v h = slug_from_task-cut token (slugify v) h

-- A slug with the claim separator, two underscores, which `slugify` lets through, is read back from the
-- pending file without what stands before the separator, where that part has no underscore. From
-- the claimed file of the same task, under a token without an underscore, it is read back whole,
-- which is another slug.
pub slug_from_task-truncates :
    (v x y token : Text)
    → slugify v ≡ x ++ (claim_token_sep ++ y)
    → all (λ c. not (c == b'_')) x ≡ true
    → all (λ c. not (c == b'_')) token ≡ true
    → (slug_from_task (task_filename v) ≡ y)
      × (slug_from_task (token ++ (claim_token_sep ++ task_filename v)) ≡ slugify v)
      × (slugify v ≢ y)
slug_from_task-truncates v x y token e h k = (
  unfold task_filename in
      rw (e, append_assoc x (claim_token_sep ++ y) brief_suffix) (slug_from_task-cut x y h),
  slug_from_task-claimed token v k,
  λ same. omega (arith, ap length same, ap length e, length-append x (claim_token_sep ++ y)),
)
