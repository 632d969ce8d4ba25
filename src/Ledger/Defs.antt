-- ===== src/Ledger/Defs.antt =====
-- scripts/obligation_ledger.py: the ledger, its check and its verdict. `created_at` and the hashes of
-- the sources are left out, and a file is its path's parts with what is read from it.
use ao_operator.Base.{
  ℕ, ◌+◌, Bool, true, false, not, ◌&&◌, ◌||◌, Option, none, some, List, [], ◌∷◌, ◌++◌, ◌==◌, leb,
  if◌then◌else◌, any, filter, map, count, length,
}
use ao_operator.Text.{Text, codes, teq, contains, strip, is_space, lower}

pub data Status : Type 0 where
  pass fail unverified waived : Status
  unknown : Text → Status

pub record Evidence : Type 0 where
  pub path : List Text
  pub line : ℕ
  pub detail : Text

pub record Obligation : Type 0 where
  pub statement : Text
  pub expected_fragments : List Text
  pub status : Status
  pub evidence : List Evidence
  pub waiver : Bool

pub record Summary : Type 0 where
  pub pass : ℕ
  pub fail : ℕ
  pub unverified : ℕ
  pub waived : ℕ

pub data Verdict : Type 0 where
  accepted rejected : Verdict

pub record Ledger : Type 0 where
  pub source_contracts : List Text
  pub obligations : List Obligation
  pub summary : Summary
  pub verdict : Verdict

-- `lines` is none where the text is not UTF-8.
pub record File : Type 0 where
  pub parts : List Text
  pub name : Text
  pub suffix : Text
  pub is_file : Bool
  pub size : ℕ
  pub lines : Option (List Text)

-- `path.as_posix()`
unfoldable pub as_posix : List Text → Text
as_posix [] = []
as_posix (p ∷ []) = p
as_posix (p ∷ q ∷ ps) = p ++ (codes "/" ++ as_posix (q ∷ ps))

unfoldable pub mem_text : Text → List Text → Bool
unfolding teq
mem_text t [] = false
mem_text t (u ∷ us) = teq t u || mem_text t us

-- `_has_prefix`, on tuples of parts
unfoldable pub has_prefix : List Text → List Text → Bool
unfolding teq
has_prefix parts [] = true
has_prefix [] (q ∷ prefix) = false
has_prefix (p ∷ parts) (q ∷ prefix) = teq p q && has_prefix parts prefix

abbrev pub text_extensions : List Text
text_extensions =
    codes ".css"
    ∷ codes ".html"
    ∷ codes ".js"
    ∷ codes ".json"
    ∷ codes ".jsx"
    ∷ codes ".md"
    ∷ codes ".py"
    ∷ codes ".rs"
    ∷ codes ".toml"
    ∷ codes ".ts"
    ∷ codes ".tsx"
    ∷ codes ".txt"
    ∷ codes ".yaml"
    ∷ codes ".yml"
    ∷ []

abbrev pub skip_dirs : List Text
skip_dirs =
    codes ".git" ∷ codes ".ao2" ∷ codes "node_modules" ∷ codes "target" ∷ codes "__pycache__" ∷ []

abbrev pub generated_evidence : List (List Text)
generated_evidence =
    (codes "docs" ∷ codes "status" ∷ [])
    ∷ (codes "docs" ∷ codes "evaluations" ∷ [])
    ∷ (codes "run-artifacts" ∷ [])
    ∷ []

unfoldable pub is_searchable : List Text → File → Bool
unfolding as_posix mem_text has_prefix lower
is_searchable source_paths f =
    f.is_file
    && (not (mem_text (as_posix f.parts) source_paths)
        && (not (any (λ p. mem_text p skip_dirs) f.parts)
            && (not (any (has_prefix f.parts) generated_evidence)
                && (leb f.size 2_000_000 && mem_text (map lower f.suffix) text_extensions))))

-- The first line that holds the fragment, counted from 1.
unfoldable pub find_line : ℕ → Text → List Text → Option ℕ
unfolding contains
find_line n fragment [] = none
find_line n fragment (l ∷ lines) =
    let rest = find_line (n + 1) fragment lines in if contains fragment l then some n else rest

abbrev pub file_line : Text → File → Option ℕ
file_line fragment f = elim f.lines [ none ↦ none | some lines ↦ find_line 1 fragment lines ]

unfoldable pub find_fragment : List File → Text → Option Evidence
unfolding find_line
find_fragment [] fragment = none
find_fragment (f ∷ files) fragment =
    let rest = find_fragment files fragment in
    elim (file_line fragment f) [
      | none ↦ rest
      | some n ↦ some (record {
        path = f.parts;
        line = n;
        detail = codes "found expected fragment `" ++ (fragment ++ codes "`");
      })
    ]

-- The evidence of the fragments that are found.
unfoldable pub find_all : List File → List Text → List Evidence
unfolding find_fragment
find_all files [] = []
find_all files (t ∷ fragments) =
    let rest = find_all files fragments in
    elim (find_fragment files t) [ none ↦ rest | some e ↦ e ∷ rest ]

-- `str(fragment).strip()` is not empty.
unfoldable pub is_blank : Text → Bool
unfolding strip is_space
is_blank t = elim (strip is_space t) [ [] ↦ true | c ∷ s ↦ false ]

unfoldable pub fragments_of : Obligation → List Text
unfolding is_blank
fragments_of o = filter (λ t. not (is_blank t)) o.expected_fragments

abbrev pub decide_status : List Text → List Evidence → Obligation → Obligation
decide_status [] evidence o = record o { status = unverified; evidence = [] }
decide_status (t ∷ ts) evidence o =
    if length evidence == length (t ∷ ts)
    then record o { status = pass; evidence = evidence }
    else record o { status = fail; evidence = [] }

-- The body of the loop of `check_ledger`.
unfoldable pub check_obligation : List File → Obligation → Obligation
unfolding fragments_of find_all
check_obligation files o =
    if o.waiver
    then record o { status = waived; evidence = [] }
    else decide_status (fragments_of o) (find_all files (fragments_of o)) o

abbrev pub is_pass : Status → Bool
is_pass pass = true
is_pass _ = false

abbrev pub is_fail : Status → Bool
is_fail fail = true
is_fail _ = false

abbrev pub is_unverified : Status → Bool
is_unverified unverified = true
is_unverified _ = false

abbrev pub is_waived : Status → Bool
is_waived waived = true
is_waived _ = false

unfoldable pub summarize : List Obligation → Summary
summarize os = record {
  pass = count (λ o. is_pass o.status) os;
  fail = count (λ o. is_fail o.status) os;
  unverified = count (λ o. is_unverified o.status) os;
  waived = count (λ o. is_waived o.status) os;
}

unfoldable pub refresh : Ledger → Ledger
unfolding summarize
refresh l =
    let s = summarize l.obligations in
    record l {
      summary = s;
      verdict = if s.fail == 0 && s.unverified == 0 then accepted else rejected;
    }

-- `.replace("\\", "/")`
abbrev pub source_path : Text → Text
source_path path = map (λ c. if c == 92 then 47 else c) path

unfoldable pub check_ledger : Ledger → List File → Ledger
unfolding is_searchable check_obligation refresh
check_ledger l tree =
    let files = filter (is_searchable (map source_path l.source_contracts)) tree in
    refresh (record l { obligations = map (check_obligation files) l.obligations })

abbrev pub nonempty {ℓ} : {A : Type ℓ} → List A → Bool
nonempty [] = false
nonempty (x ∷ l) = true

-- The ids, which are renumbered in order, are left out.
unfoldable pub exact_fragment_ledger : Ledger → Ledger
unfolding refresh
exact_fragment_ledger l =
    refresh (record l { obligations = filter (λ o. nonempty o.expected_fragments) l.obligations })
