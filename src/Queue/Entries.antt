-- ===== src/Queue/Entries.antt =====
-- What adding, removing and finding an entry does to the count of the files of a slug.
use ao_operator.Base.{
  ◌+◌, ◌≤◌, ◌≡◌, refl, Bool, true, false, none, some, [], ◌∷◌, count, arith, if◌then◌else◌,
}
use ao_operator.Text.{Text, teq, teq→eq}
use ao_operator.Queue.Defs.{Entry, Dir, find_entry, remove_entry, put_entry}

pub count-remove_entry :
    (p : Entry → Bool) (name : Text) (d : Dir) (e : Entry)
    → find_entry name d ≡ some e
    → count p d ≡ (if p e then 1 else 0) + count p (remove_entry name d)
unfolding find_entry remove_entry
count-remove_entry p name [] e h = cc
count-remove_entry p name (f ∷ d) e h = ground (arith, count-remove_entry p name d e)

pub count-remove_entry-le :
    (p : Entry → Bool) (name : Text) (d : Dir) → count p (remove_entry name d) ≤ count p d
unfolding remove_entry
count-remove_entry-le p name [] = omega arith
count-remove_entry-le p name (f ∷ d) = ground (arith, count-remove_entry-le p name d)

pub remove_entry_absent :
    (name : Text) (d : Dir) → find_entry name d ≡ none → remove_entry name d ≡ d
unfolding find_entry remove_entry
remove_entry_absent name [] h = refl
remove_entry_absent name (f ∷ d) h = ground (arith, remove_entry_absent name d)

pub count-put_entry :
    (p : Entry → Bool) (e : Entry) (d : Dir)
    → find_entry e.name d ≡ none
    → count p (put_entry e d) ≡ (if p e then 1 else 0) + count p d
unfolding put_entry
count-put_entry p e d h = rw (remove_entry_absent e.name d h) refl

pub count-put_entry-le :
    (p : Entry → Bool) (e : Entry) (d : Dir)
    → count p (put_entry e d) ≤ (if p e then 1 else 0) + count p d
unfolding put_entry
count-put_entry-le p e d = omega (arith, count-remove_entry-le p e.name d)

pub name-find_entry :
    (name : Text) (d : Dir) (e : Entry) → find_entry name d ≡ some e → e.name ≡ name
unfolding find_entry
name-find_entry name [] e h = cc
name-find_entry name (f ∷ d) e h = ground (arith, name-find_entry name d e, teq→eq f.name name)

-- A predicate of all entries of a directory, kept by the moves.
module _ (P : Entry → Type 0) where
  abbrev pub All : Dir → Type 0
  All [] = Unit
  All (e ∷ d) = P e × All d

  All-if : (b : Bool) (d d' : Dir) → All d → All d' → All (if b then d else d')
  All-if true d d' h k = h
  All-if false d d' h k = k

  pub All-remove_entry : (name : Text) (d : Dir) → All d → All (remove_entry name d)
  unfolding remove_entry
  All-remove_entry name [] h = tt
  All-remove_entry name (e ∷ d) h =
      All-if (teq e.name name) d (e ∷ remove_entry name d) h.1 (h.0, All-remove_entry name d h.1)

  pub All-find_entry :
      (name : Text) (d : Dir) (e : Entry) → All d → find_entry name d ≡ some e → P e
  unfolding find_entry
  All-find_entry name [] e h k = cc
  All-find_entry name (f ∷ d) e h k = ground (arith, All-find_entry name d e h.1)

  pub All-put_entry : (e : Entry) (d : Dir) → P e → All d → All (put_entry e d)
  unfolding put_entry
  All-put_entry e d h k = (h, All-remove_entry e.name d k)
