-- ===== src/Ledger/Tests.antt =====
-- The ledger on small inputs.
use ao_operator.Base.{◌≡◌, refl, true, some, [], ◌∷◌, all, filter, map}
use ao_operator.Text.{codes}
use ao_operator.Ledger.Defs.{
  File, Ledger, accepted, rejected, is_searchable, source_path, check_ledger,
}
use ao_operator.Ledger.Extract.{extract_ledger}
use ao_operator.Ledger.Laws.{is_met, verdict_if, check_ledger-verdict}

abbrev contract : Ledger
contract = extract_ledger (codes "brief.md") (codes "- 1. The page must say `hello`" ∷ [])

abbrev page : File
page = record {
  parts = codes "site" ∷ codes "index.html" ∷ [];
  name = codes "index.html";
  suffix = codes ".html";
  is_file = true;
  size = 12;
  lines = some (codes "<p>" ∷ codes "hello" ∷ []);
}

contract_rejected : contract.verdict ≡ rejected
unfolding extract_ledger
contract_rejected = refl

contract_met : (check_ledger contract (page ∷ [])).verdict ≡ accepted
unfolding check_ledger extract_ledger
contract_met = refl

check_ledger-verdict_example :
    (check_ledger contract (page ∷ [])).verdict
    ≡ verdict_if (
        all
          (is_met (filter (is_searchable (map source_path contract.source_contracts)) (page ∷ [])))
          contract.obligations)
check_ledger-verdict_example = check_ledger-verdict contract (page ∷ [])

-- A source that is written with a backslash is no evidence for itself.
contract_unmet :
    (check_ledger
      (record contract { source_contracts = codes "site\\index.html" ∷ [] })
      (page ∷ [])).verdict
    ≡ rejected
unfolding check_ledger extract_ledger
contract_unmet = refl
