-- ===== src/Ledger/Laws.antt =====
-- app/point_transactions.py: the recording of transactions and their pages.
use native.Mathlib.Nat.{le-div_iff_mul-le, div-mul-le_self, div-add-mod'}
use api.Base.{
  sym, ℕ, zero, suc, ◌+◌, ◌-◌, ◌*◌, ◌/◌, ◌%◌, ◌≤◌, ◌<◌, min, max, ◌≡◌, ◌≢◌, ◌∙◌, ap, refl, arith,
  Bool, none, some, List, [], ◌∷◌, ◌++◌, String, eq_iff, length, take, get_elem?, drop,
  length-append, length-drop, Option-cases, inl, inr,
}
use api.Base.Text.{strip, str_take}
use api.Ledger.{
  Transaction, find_transaction, record_transaction, normalize_transaction, last_n,
  max_transactions, list_transactions, newest_first, user_rows,
}

last_n-length {ℓ} : {A : Type ℓ} (n : ℕ) (xs : List A) → length (last_n n xs) ≤ n
last_n-length n xs = omega (arith, length-drop (length xs - n) xs)

-- The file never holds more than 10000 transactions, if it did not before.
pub record_transaction-length :
    (fresh : String) (now : ℕ) (t : Transaction) (ledger : List Transaction)
    → length ledger ≤ max_transactions
    → length (record_transaction fresh now t ledger).1 ≤ max_transactions
unfolding record_transaction
record_transaction-length fresh now t ledger h =
    let entry = normalize_transaction fresh now t in
    ground (arith, last_n-length max_transactions (ledger ++ entry ∷ []))

find_transaction-drop :
    (t : Transaction) (k : ℕ) (xs : List Transaction)
    → k ≤ length xs
    → find_transaction t.id xs ≡ none
    → find_transaction t.id (drop k (xs ++ t ∷ [])) ≡ some t
unfolding find_transaction
find_transaction-drop t zero [] h n = ground (arith, eq_iff t.id t.id)
find_transaction-drop t (suc k) [] h n = absurd (omega arith)
find_transaction-drop t zero (x ∷ xs) h n = ground (arith, find_transaction-drop t 0 xs)
find_transaction-drop t (suc k) (x ∷ xs) h n = ground (arith, find_transaction-drop t k xs)

find_transaction-last_n :
    (t : Transaction) (xs : List Transaction)
    → find_transaction t.id xs ≡ none
    → find_transaction t.id (last_n max_transactions (xs ++ t ∷ [])) ≡ some t
find_transaction-last_n t xs n =
    find_transaction-drop t _ xs (omega (arith, length-append xs (t ∷ []))) n

-- A given identifier does not depend on the fresh one, nor on the time.
normalize_transaction-id :
    (f f' : String) (now now' : ℕ) (t : Transaction)
    → str_take 32 (strip t.id) ≢ ""
    → (normalize_transaction f now t).id ≡ (normalize_transaction f' now' t).id
unfolding normalize_transaction
normalize_transaction-id f f' now now' t given =
    ground (arith, eq_iff (str_take 32 (strip t.id)) "")

find_transaction-id :
    (id : String) (xs : List Transaction) (t : Transaction)
    → find_transaction id xs ≡ some t
    → t.id ≡ id
unfolding find_transaction
find_transaction-id id [] t h = cc
find_transaction-id id (x ∷ xs) t h = ground (arith, eq_iff x.id id, find_transaction-id id xs t)

recorded_is_found :
    (f : String) (now : ℕ) (t x : Transaction) (ledger ledger' : List Transaction)
    → record_transaction f now t ledger ≡ (some x, ledger')
    → find_transaction (normalize_transaction f now t).id ledger' ≡ some x
unfolding record_transaction
recorded_is_found f now t x ledger ledger' done =
    let entry = normalize_transaction f now t in
    elim (Option-cases (find_transaction entry.id ledger)) [
      | inl new ↦ ground (arith, find_transaction-last_n entry ledger new)
      | inr (old, seen) ↦ ground arith
    ]

record_found :
    (f : String) (now : ℕ) (t x : Transaction) (ledger : List Transaction)
    → strip t.user_id ≢ ""
    → find_transaction (normalize_transaction f now t).id ledger ≡ some x
    → record_transaction f now t ledger ≡ (some x, ledger)
unfolding record_transaction
record_found f now t x ledger user seen = ground (arith, eq_iff (strip t.user_id) "")

-- A transaction with an identifier of its own is recorded once: recording it again, at any time,
-- returns what was stored and leaves the ledger as it is.
pub record_transaction_twice :
    (f f' : String) (now now' : ℕ) (t x : Transaction) (ledger ledger' : List Transaction)
    → str_take 32 (strip t.id) ≢ ""
    → strip t.user_id ≢ ""
    → record_transaction f now t ledger ≡ (some x, ledger')
    → record_transaction f' now' t ledger' ≡ (some x, ledger')
record_transaction_twice f f' now now' t x ledger ledger' given user done =
    record_found f' now' t x ledger' user (
      ap (λ id. find_transaction id ledger') (normalize_transaction-id f' f now' now t given)
      ∙ recorded_is_found f now t x ledger ledger' done)

get_elem?-take {ℓ} :
    {A : Type ℓ} (n j : ℕ) (xs : List A) → j < n → get_elem? (take n xs) j ≡ get_elem? xs j
get_elem?-take zero j xs h = absurd (omega arith)
get_elem?-take (suc n) j [] h = refl
get_elem?-take (suc n) zero (x ∷ xs) h = refl
get_elem?-take (suc n) (suc j) (x ∷ xs) h = get_elem?-take n j xs (omega arith)

get_elem?-drop {ℓ} :
    {A : Type ℓ} (k j i : ℕ) (xs : List A) → i ≡ k + j → get_elem? (drop k xs) j ≡ get_elem? xs i
get_elem?-drop zero j i xs h = ap (get_elem? xs) (omega arith)
get_elem?-drop (suc k) j i [] h = refl
get_elem?-drop (suc k) j zero (x ∷ xs) h = absurd (omega arith)
get_elem?-drop (suc k) j (suc i) (x ∷ xs) h = get_elem?-drop k j i xs (omega arith)

-- The page of row i exists.
page_in_range :
    (i total size : ℕ)
    → 1 ≤ size
    → i < total
    → min (max 1 (i / size + 1)) (max 1 ((total + size - 1) / size)) ≡ i / size + 1
page_in_range i total size pos below = omega (
  arith,
  (le-div_iff_mul-le {x = i / size + 1} {y = total + size - 1} pos).1
      (omega (arith, div-mul-le_self i size)),
)

row_start : (i size : ℕ) → i ≡ (i / size + 1 - 1) * size + i % size
row_start i size =
    let q : i / size + 1 - 1 ≡ i / size = omega arith in rw q (sym (div-add-mod' i size))

-- Every row of a user, newest first, stands on the page that its place gives.
pub list_transactions-row :
    (user : String) (page_size i : ℕ) (hidden : Bool) (ledger : List Transaction)
    → let rows = newest_first (user_rows user hidden ledger) in
      let size = max 1 (min 100 page_size) in
      i < length rows
      → get_elem?
          (list_transactions user (i / size + 1) page_size hidden ledger).transactions
          (i % size)
        ≡ get_elem? rows i
unfolding list_transactions
list_transactions-row user page_size i hidden ledger below =
    let rows = newest_first (user_rows user hidden ledger) in
    let size = max 1 (min 100 page_size) in
    rw (page_in_range i (length rows) size (omega arith) below) (
      get_elem?-take size (i % size) _ (omega arith)
      ∙ get_elem?-drop _ (i % size) i rows (row_start i size))
