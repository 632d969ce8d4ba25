-- ===== src/Ledger/Laws.antt =====
-- What acceptance of a ledger by scripts/obligation_ledger.py means.
use ao_operator.Base.{
  ℕ, ◌+◌, ◌≤◌, ◌≡◌, refl, ap, ◌∙◌, Bool, true, false, not, ◌&&◌, ◌||◌, none, some, List, [], ◌∷◌,
  ◌==◌, if◌then◌else◌, any, all, filter, map, count, length, is_some, arith, Option-cases, inl, inr,
}
use ao_operator.Text.{Text, contains}
use ao_operator.Ledger.Defs.{
  Obligation, Evidence, File, Ledger, waived, Verdict, accepted, rejected, find_line, file_line,
  find_fragment, find_all, fragments_of, decide_status, check_obligation, is_fail, is_unverified,
  is_searchable, refresh, source_path, check_ledger, nonempty,
}

-- No obligation is left failed or unverified.
abbrev pub is_settled : Obligation → Bool
is_settled o = not (is_fail o.status) && not (is_unverified o.status)

count-all :
    (os : List Obligation)
    → (count (λ o. is_fail o.status) os == 0 && count (λ o. is_unverified o.status) os == 0)
      ≡ all is_settled os
count-all [] = refl
count-all (o ∷ os) = ground (arith, count-all os)

abbrev pub verdict_if : Bool → Verdict
verdict_if b = if b then accepted else rejected

-- A refreshed ledger is accepted exactly if none of its obligations is failed or unverified.
pub refresh-verdict : (l : Ledger) → (refresh l).verdict ≡ verdict_if (all is_settled l.obligations)
unfolding refresh
refresh-verdict l = ap verdict_if (count-all l.obligations)

-- A line of the file holds the fragment.
abbrev pub file_has : Text → File → Bool
file_has fragment f = elim f.lines [ none ↦ false | some lines ↦ any (contains fragment) lines ]

find_line-any :
    (n : ℕ) (t : Text) (lines : List Text) → is_some (find_line n t lines) ≡ any (contains t) lines
unfolding find_line
find_line-any n t [] = refl
find_line-any n t (l ∷ lines) = ground (arith, find_line-any (n + 1) t lines)

file_line-has : (t : Text) (f : File) → is_some (file_line t f) ≡ file_has t f
file_line-has t f = elim (Option-cases f.lines) [
  | inl binary ↦ rw binary refl
  | inr (lines, e) ↦ rw e (find_line-any 1 t lines)
]

find_fragment-any :
    (files : List File) (t : Text) → is_some (find_fragment files t) ≡ any (file_has t) files
unfolding find_fragment
find_fragment-any [] t = refl
find_fragment-any (f ∷ files) t = elim (Option-cases (file_line t f)) [
  | inl absent ↦
      rw (absent, find_fragment) (rw (← file_line-has t f, absent) (find_fragment-any files t))
  | inr (n, e) ↦ rw (e, find_fragment) (rw (← file_line-has t f, e) refl)
]

length-find_all-le : (files : List File) (ts : List Text) → length (find_all files ts) ≤ length ts
unfolding find_all
length-find_all-le files [] = omega arith
length-find_all-le files (t ∷ ts) = ground (arith, length-find_all-le files ts)

find_all_complete :
    (files : List File) (ts : List Text)
    → (length (find_all files ts) == length ts) ≡ all (λ t. is_some (find_fragment files t)) ts
unfolding find_all
find_all_complete files [] = refl
find_all_complete files (t ∷ ts) = elim (Option-cases (find_fragment files t)) [
  | inl absent ↦ rw (absent, find_all) (ground (arith, length-find_all-le files ts))
  | inr (e, there) ↦ rw (there, find_all) (ground (arith, find_all_complete files ts))
]

all-find_fragment :
    (files : List File) (ts : List Text)
    → all (λ t. is_some (find_fragment files t)) ts ≡ all (λ t. any (file_has t) files) ts
all-find_fragment files [] = refl
all-find_fragment files (t ∷ ts) = cc (find_fragment-any files t, all-find_fragment files ts)

-- An obligation is met: waived, or with fragments each of which stands on a line of some file.
abbrev pub is_met : List File → Obligation → Bool
is_met files o =
    o.waiver || nonempty (fragments_of o) && all (λ t. any (file_has t) files) (fragments_of o)

decide_status-settled :
    (ts : List Text) (evidence : List Evidence) (o : Obligation)
    → is_settled (decide_status ts evidence o) ≡ (nonempty ts && (length evidence == length ts))
decide_status-settled [] evidence o = refl
decide_status-settled (t ∷ ts) evidence o = ground arith

if-settled :
    (b : Bool) (o p : Obligation)
    → is_settled (if b then record o { status = waived; evidence = [] } else p) ≡ b || is_settled p
if-settled true o p = refl
if-settled false o p = refl

check_obligation-settled :
    (files : List File) (o : Obligation) → is_settled (check_obligation files o) ≡ is_met files o
unfolding check_obligation
check_obligation-settled files o =
    let ts = fragments_of o in
    let checked = decide_status ts (find_all files ts) o in
    let found =
      decide_status-settled ts (find_all files ts) o
      ∙ ap (λ b. nonempty ts && b) (find_all_complete files ts ∙ all-find_fragment files ts) in
    if-settled o.waiver o checked ∙ ap (λ b. o.waiver || b) found

all-check :
    (files : List File) (os : List Obligation)
    → all is_settled (map (check_obligation files) os) ≡ all (is_met files) os
all-check files [] = refl
all-check files (o ∷ os) = cc (check_obligation-settled files o, all-check files os)

-- A checked ledger is accepted exactly if each obligation is waived, or names a fragment and has each
-- of its fragments on a line of a searchable file, one that is not a source of the ledger, whether the
-- source is written with slashes or with backslashes.
pub check_ledger-verdict :
    (l : Ledger) (tree : List File)
    → (check_ledger l tree).verdict
      ≡ verdict_if (
          all
            (is_met (filter (is_searchable (map source_path l.source_contracts)) tree))
            l.obligations)
unfolding check_ledger
check_ledger-verdict l tree =
    let files = filter (is_searchable (map source_path l.source_contracts)) tree in
    refresh-verdict (record l { obligations = map (check_obligation files) l.obligations })
    ∙ ap verdict_if (all-check files l.obligations)
