-- ===== src/Closure/Ledgers.antt =====
-- scripts/verify_closure.py: `obligation_ledger_evidence`. A ledger with both lists is checked anew, by
-- the repository's files, and written back before its verdict is read; a write that fails is left out.
use ao_operator.Base.{
  ℕ, ◌+◌, ◌-◌, ◌*◌, Bool, true, false, not, ◌&&◌, Option, none, some, List, [], ◌∷◌, ◌++◌, ◌==◌,
  all, map, if◌then◌else◌,
}
use ao_operator.Base.Empty.{is_empty}
use ao_operator.Text.{Text, codes, teq, text_le}
use ao_operator.GateR.{is_digit}
use ao_operator.Ledger.{Ledger, Verdict, accepted, rejected, check_ledger}
use ao_operator.Closure.Repo.{
  LedgerData, Value, int, below, flag, text, other, unreadable, uncheckable, full, bare, Repo, Host,
  ClosureError, ledger_unreadable, ledger_uncheckable, ledger_schema, ledger_verdict, ledger_fail,
  ledger_unverified, no_ledger,
}

-- `sorted({…})` of paths: by their parts, so a separator comes before each other character.
abbrev path_key : Text → Text
path_key t = map (λ c. if c == b'/' then 0 else c) t

unfoldable pub insert_path : Text → List Text → List Text
unfolding teq text_le
insert_path p [] = p ∷ []
insert_path p (q ∷ paths) =
    let rest = insert_path p paths in
    if teq p q
    then q ∷ paths
    else if text_le (path_key p) (path_key q)
    then p ∷ q ∷ paths
    else q ∷ rest

unfoldable pub sorted_set : List Text → List Text
unfolding insert_path
sorted_set [] = []
sorted_set (p ∷ paths) = insert_path p (sorted_set paths)

-- `int(value)` of digits, behind the digits read.
unfoldable pub digits_value : ℕ → Text → ℕ
digits_value n [] = n
digits_value n (c ∷ s) = digits_value (n * 10 + (c - 48)) s

-- `_int_value`, a number as a value.
unfoldable pub int_value : Value → Value
unfolding digits_value
int_value (int n) = int n
int_value (below n) = below n
int_value (flag b) = int (if b then 1 else 0)
int_value (text t) = if not (is_empty t) && all is_digit t then int (digits_value 0 t) else int 0
int_value other = int 0

abbrev pub is_zero : Value → Bool
is_zero (int n) = n == 0
is_zero _ = false

abbrev pub is_text : Text → Option Text → Bool
is_text t none = false
is_text t (some u) = teq u t

abbrev pub error_if : Bool → ClosureError → List ClosureError
error_if true e = e ∷ []
error_if false e = []

abbrev pub verdict_text : Verdict → Text
verdict_text accepted = codes "accepted"
verdict_text rejected = codes "rejected"

-- What is wrong with a ledger by its fields.
unfoldable pub data_errors :
    Text → (schema verdict : Option Text) (fail unverified : Value) → List ClosureError
unfolding teq int_value
data_errors path schema verdict fail unverified =
    error_if (not (is_text (codes "ao2.obligation-ledger.v1") schema)) (ledger_schema path)
    ++ (error_if (not (is_text (codes "accepted") verdict)) (ledger_verdict path)
        ++ (error_if (not (is_zero (int_value fail))) (ledger_fail path)
            ++ error_if (not (is_zero (int_value unverified))) (ledger_unverified path)))

unfoldable pub full_errors : Text → Option Text → Ledger → List ClosureError
unfolding data_errors
full_errors path schema l =
    data_errors path schema (some (verdict_text l.verdict)) (int l.summary.fail)
      (int l.summary.unverified)

-- The round for one ledger: its errors, and the repository that it leaves.
unfoldable pub check_data : Host → Repo → Text → LedgerData → List ClosureError × Repo
unfolding check_ledger full_errors
check_data host repo path unreadable = (ledger_unreadable path ∷ [], repo)
check_data host repo path uncheckable = (ledger_uncheckable path ∷ [], repo)
check_data host repo path (full schema l) =
    let checked = check_ledger l repo.files in
    (full_errors path schema checked, host.write repo path (full schema checked))
check_data host repo path (bare schema verdict fail unverified) =
    (data_errors path schema verdict fail unverified, repo)

unfoldable pub check_ledger_file : Host → Repo → Text → List ClosureError × Repo
unfolding check_data
check_ledger_file host repo path = check_data host repo path (repo.ledger path)

unfoldable pub check_ledger_files : Host → Repo → List Text → List ClosureError × Repo
unfolding check_ledger_file
check_ledger_files host repo [] = ([], repo)
check_ledger_files host repo (path ∷ paths) =
    let here = check_ledger_file host repo path in
    let rest = check_ledger_files host here.1 paths in (here.0 ++ rest.0, rest.1)

abbrev pub missing : Bool → List Text → ClosureError → List ClosureError
missing require [] e = error_if require e
missing require (path ∷ paths) e = []

unfoldable pub obligation_ledger_evidence :
    Host → Repo → (require : Bool) → List ClosureError × Repo
unfolding sorted_set check_ledger_files
obligation_ledger_evidence host repo require =
    let ledgers = sorted_set repo.ledger_candidates in
    let checked = check_ledger_files host repo ledgers in
    (missing require ledgers no_ledger ++ checked.0, checked.1)
