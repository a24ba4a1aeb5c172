-- ===== src/Ledger/Tests.antt =====
-- Inputs of app/point_transactions.py, and instances of its theorems.
use api.Base.{ℕ, ◌≡◌, refl, arith, true, String, [], ◌∷◌, some, none, eq_iff, get_elem?}
use api.Base.Int.{pos}
use api.Base.Text.{strip}
use api.Ledger.{
  Transaction, record_transaction, normalize_transaction, find_transaction, list_transactions,
  newest_first, user_rows,
}
use api.Ledger.Laws.{record_transaction_twice, list_transactions-row}

abbrev transaction : String → ℕ → Transaction
transaction id at = record {
  id = id;
  user_id = " u ";
  kind = "";
  amount_units = pos 5;
  balance_units = none;
  video_quota_change = pos 0;
  video_quota_balance = none;
  title = "";
  detail = "";
  reference_id = "";
  visible_to_client = true;
  created_at = at;
}

program : Unit {0}
unfolding record_transaction normalize_transaction find_transaction list_transactions newest_first
    user_rows strip
program = tt

abbrev first : Transaction
first = normalize_transaction "f" 7 (transaction "a" 0)

records : record_transaction "f" 7 (transaction "a" 0) [] ≡ (some first, first ∷ [])
unfolding program
records = refl

without_user :
    record_transaction "f" 7 (record (transaction "a" 0) { user_id = "  " }) [] ≡ (none, [])
unfolding program
without_user = refl

record_transaction_twice_example :
    record_transaction "g" 8 (transaction "a" 0) (first ∷ []) ≡ (some first, first ∷ [])
unfolding program
record_transaction_twice_example =
    record_transaction_twice "f" "g" 7 8 (transaction "a" 0) first [] (first ∷ [])
      (ground (arith, eq_iff "a" "")) (ground (arith, eq_iff "u" "")) refl

abbrev second : Transaction
second = normalize_transaction "f" 9 (transaction "b" 0)

list_transactions-row_example :
    get_elem? (list_transactions "u" 1 1 true (first ∷ second ∷ [])).transactions 0 ≡ some second
unfolding program
list_transactions-row_example =
    list_transactions-row "u" 1 0 true (first ∷ second ∷ []) (omega arith)
