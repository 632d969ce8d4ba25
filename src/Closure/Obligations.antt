-- ===== src/Closure/Obligations.antt =====
-- When the obligation ledgers of a repository leave no error in scripts/verify_closure.py.
use ao_operator.Base.{
  ◌≡◌, refl, ◌∙◌, ap, Bool, true, false, not, ◌&&◌, Option, some, List, [], ◌∷◌, ◌==◌, arith,
  if◌then◌else◌,
}
use ao_operator.Base.Empty.{is_empty, is_empty-append}
use ao_operator.Text.{Text, codes, teq}
use ao_operator.Ledger.{Ledger, accepted, rejected, check_ledger, refresh}
use ao_operator.Closure.Repo.{
  Value, LedgerData, unreadable, uncheckable, full, bare, Repo, Host, ClosureError,
}
use ao_operator.Closure.Ledgers.{
  int_value, is_zero, is_text, error_if, verdict_text, missing, sorted_set, data_errors,
  full_errors, check_data, check_ledger_file, check_ledger_files, obligation_ledger_evidence,
}

abbrev pub is_ledger_schema : Option Text → Bool
is_ledger_schema schema = is_text (codes "ao2.obligation-ledger.v1") schema

-- A ledger with both lists: checked anew, no obligation of it failed or is unverified.
abbrev pub is_ledger_accepted : Repo → LedgerData → Bool
is_ledger_accepted repo unreadable = false
is_ledger_accepted repo uncheckable = false
is_ledger_accepted repo (full schema l) =
    let checked = check_ledger l repo.files in
    is_ledger_schema schema && (checked.summary.fail == 0 && checked.summary.unverified == 0)
is_ledger_accepted repo (bare schema verdict fail unverified) =
    is_ledger_schema schema
    && (is_text (codes "accepted") verdict
        && (is_zero (int_value fail) && is_zero (int_value unverified)))

-- Each ledger, in the repository that the ledgers before it leave.
unfoldable pub are_ledgers_accepted : Host → Repo → List Text → Bool
unfolding check_ledger check_ledger_file
are_ledgers_accepted host repo [] = true
are_ledgers_accepted host repo (path ∷ paths) =
    let rest = are_ledgers_accepted host (check_ledger_file host repo path).1 paths in
    is_ledger_accepted repo (repo.ledger path) && rest

pub is_empty-error_if : (b : Bool) (e : ClosureError) → is_empty (error_if b e) ≡ not b
is_empty-error_if true e = refl
is_empty-error_if false e = refl

is_empty-data :
    (path : Text) (schema verdict : Option Text) (fail unverified : Value)
    → is_empty (data_errors path schema verdict fail unverified) ≡ (
        is_ledger_schema schema
        && (is_text (codes "accepted") verdict
            && (is_zero (int_value fail) && is_zero (int_value unverified))))
unfolding data_errors
is_empty-data path schema verdict fail unverified = ground arith

-- A verdict that is read off two tests adds nothing to them.
accepted_iff :
    (a b : Bool)
    → (is_text (codes "accepted") (some (verdict_text (if a && b then accepted else rejected)))
        && (a && b))
      ≡ (a && b)
unfolding teq
accepted_iff true true = refl
accepted_iff true false = refl
accepted_iff false b = ground arith

is_empty-full :
    (path : Text) (schema : Option Text) (l : Ledger) (repo : Repo)
    → is_empty (full_errors path schema (check_ledger l repo.files))
      ≡ is_ledger_accepted repo (full schema l)
unfolding full_errors check_ledger refresh int_value
is_empty-full path schema l repo =
    let checked = check_ledger l repo.files in
    is_empty-data path schema (some (verdict_text checked.verdict)) (Value.int checked.summary.fail)
      (Value.int checked.summary.unverified)
    ∙ ap (λ b. is_ledger_schema schema && b)
        (accepted_iff (checked.summary.fail == 0) (checked.summary.unverified == 0))

is_empty-ledger :
    (host : Host) (repo : Repo) (path : Text) (found : LedgerData)
    → is_empty (check_data host repo path found).0 ≡ is_ledger_accepted repo found
unfolding check_data
is_empty-ledger host repo path unreadable = refl
is_empty-ledger host repo path uncheckable = refl
is_empty-ledger host repo path (full schema l) = is_empty-full path schema l repo
is_empty-ledger host repo path (bare schema verdict fail unverified) =
    is_empty-data path schema verdict fail unverified

is_empty-ledgers :
    (host : Host) (repo : Repo) (paths : List Text)
    → is_empty (check_ledger_files host repo paths).0 ≡ are_ledgers_accepted host repo paths
unfolding check_ledger_files check_ledger_file are_ledgers_accepted
is_empty-ledgers host repo [] = refl
is_empty-ledgers host repo (path ∷ paths) =
    let next = (check_ledger_file host repo path).1 in
    is_empty-append (check_ledger_file host repo path).0 (check_ledger_files host next paths).0
    ∙ cc (is_empty-ledger host repo path (repo.ledger path), is_empty-ledgers host next paths)

-- The ledgers: where one is required there is one, and each is accepted.
abbrev pub are_obligations_met : Host → Repo → Bool → Bool
are_obligations_met host repo require =
    let ledgers = sorted_set repo.ledger_candidates in
    not (require && is_empty ledgers) && are_ledgers_accepted host repo ledgers

is_empty-missing :
    (require : Bool) (paths : List Text) (e : ClosureError)
    → is_empty (missing require paths e) ≡ not (require && is_empty paths)
is_empty-missing true [] e = refl
is_empty-missing false [] e = refl
is_empty-missing true (p ∷ paths) e = refl
is_empty-missing false (p ∷ paths) e = refl

pub is_empty-obligation_ledger_evidence :
    (host : Host) (repo : Repo) (require : Bool)
    → is_empty (obligation_ledger_evidence host repo require).0
      ≡ are_obligations_met host repo require
unfolding obligation_ledger_evidence
is_empty-obligation_ledger_evidence host repo require =
    let ledgers = sorted_set repo.ledger_candidates in
    is_empty-append (missing require ledgers ClosureError.no_ledger)
      (check_ledger_files host repo ledgers).0
    ∙ cc (
      is_empty-missing require ledgers ClosureError.no_ledger,
      is_empty-ledgers host repo ledgers,
    )
