-- ===== src/Ledger.antt =====
-- app/point_transactions.py: the ledger of points and video quota, kept in the file.
-- Quota amounts are in tenths of a use; a new identifier is an argument.
pub mod Laws
mod Tests
use api.Base.{
  ℕ, ◌+◌, ◌-◌, ◌*◌, ◌/◌, min, max, Bool, true, false, ◌||◌, ◌&&◌, Option, none, some, List, [], ◌∷◌,
  ◌++◌, String, str_eq, leb, if◌then◌else◌, length, take, drop,
}
use api.Base.Text.{strip, str_take}
use api.Base.Int.{ℤ}

pub record Transaction : Type 0 where
  pub id : String
  pub user_id : String
  pub kind : String
  pub amount_units : ℤ
  pub balance_units : Option ℤ
  pub video_quota_change : ℤ
  pub video_quota_balance : Option ℕ
  pub title : String
  pub detail : String
  pub reference_id : String
  pub visible_to_client : Bool
  pub created_at : ℕ

-- `s or default`
abbrev str_or : String → String → String
str_or s d = if str_eq s "" then d else s

abbrev pub max_transactions : ℕ
max_transactions = 10000

-- `xs[-n:]` for a positive `n`
abbrev pub last_n {ℓ} : {A : Type ℓ} → ℕ → List A → List A
last_n n xs = drop (length xs - n) xs

unfoldable pub find_transaction : String → List Transaction → Option Transaction
find_transaction id [] = none
find_transaction id (t ∷ rest) = if str_eq t.id id then some t else find_transaction id rest

-- The entry that `record_transaction` builds from its arguments, given as a transaction.
unfoldable pub normalize_transaction : String → ℕ → Transaction → Transaction
unfolding strip
normalize_transaction fresh_id now t = record t {
  id = str_or (str_take 32 (strip t.id)) fresh_id;
  user_id = strip t.user_id;
  kind = str_take 40 (str_or t.kind "adjustment");
  title = str_take 120 (strip (str_or t.title "积分变动"));
  detail = str_take 500 (strip t.detail);
  reference_id = str_take 120 (strip t.reference_id);
  created_at = now;
}

-- `none` is the empty result without a user.
unfoldable pub record_transaction :
    String → ℕ → Transaction → List Transaction → Option Transaction × List Transaction
record_transaction fresh_id now t ledger =
    let entry = normalize_transaction fresh_id now t in
    if str_eq (strip t.user_id) ""
    then (none, ledger)
    else elim (find_transaction entry.id ledger) [
      | some existing ↦ (some existing, ledger)
      | none ↦ (some entry, last_n max_transactions (ledger ++ entry ∷ []))
    ]

-- The rows of a user, hidden ones only on request.
unfoldable pub user_rows : String → Bool → List Transaction → List Transaction
user_rows user include_hidden [] = []
user_rows user include_hidden (t ∷ rest) =
    let kept = user_rows user include_hidden rest in
    if str_eq t.user_id user && (include_hidden || t.visible_to_client) then t ∷ kept else kept

-- `sort(key = created_at, reverse = True)`, which is stable.
unfoldable pub insert_newest : Transaction → List Transaction → List Transaction
insert_newest t [] = t ∷ []
insert_newest t (u ∷ rest) =
    let later = u ∷ insert_newest t rest in
    if leb u.created_at t.created_at then t ∷ u ∷ rest else later

unfoldable pub newest_first : List Transaction → List Transaction
unfolding insert_newest
newest_first [] = []
newest_first (t ∷ rest) = insert_newest t (newest_first rest)

pub record Page : Type 0 where
  pub transactions : List Transaction
  pub total : ℕ
  pub page : ℕ
  pub page_size : ℕ
  pub total_pages : ℕ

unfoldable pub list_transactions : String → ℕ → ℕ → Bool → List Transaction → Page
unfolding user_rows newest_first
list_transactions user page page_size include_hidden ledger =
    let size = max 1 (min 100 page_size) in
    let rows = newest_first (user_rows user include_hidden ledger) in
    let total = length rows in
    let total_pages = max 1 ((total + size - 1) / size) in
    let current = min (max 1 page) total_pages in
    record {
      transactions = take size (drop ((current - 1) * size) rows);
      total = total;
      page = current;
      page_size = size;
      total_pages = total_pages;
    }
