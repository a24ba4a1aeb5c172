-- ===== src/Accounts/Limit.antt =====
-- app/accounts.py: the quota of the account that a claim takes.
use api.Base.{
  ℕ, ◌+◌, ◌≤◌, ◌%◌, max, Bool, true, false, ◌||◌, not, Option, none, some, zero, suc, List, [], ◌∷◌,
  String, str_eq, ◌≡◌, refl, arith, if◌then◌else◌, leb, ◌==◌, Bool-cases, inl, inr, ◌⊎◌, length,
  get_elem?, ap,
}
use api.Accounts.Ledger.{active_units}
use api.Accounts.Account.{Account}
use api.Accounts.Select.{
  Request, studio_quota, ledger_of, limit_or, limit_of, synced, quota_available, is_available,
  is_random, enabled_accounts, select_account,
}
use api.Accounts.Claim.{take_account, claim_account_for_worker}
use api.Accounts.InOrder.{InOrder, AllInOrder}
use api.Accounts.Order.{AllIn, First, sort-First, enabled-AllIn}
use api.Accounts.Refund.{new_charge, with_last-used}
use api.Accounts.Give.{take-studio, take-quota}

abbrev pub Holds : (Account → Type 0) → Option Account → Type 0
Holds P none = Unit
Holds P (some a) = P a

get_elem-Holds :
    (P : Account → Type 0) (l : List Account) (i : ℕ) → AllIn P l → Holds P (get_elem? l i)
get_elem-Holds P [] i h = tt
get_elem-Holds P (a ∷ l) zero h = h.0
get_elem-Holds P (a ∷ l) (suc i) h = get_elem-Holds P l i h.1

chosen-Holds :
    (r : Request) (today : ℕ) (P : Account → Type 0) (o : Option Account) (l : List Account)
    → First r today P o l
    → Holds P o
chosen-Holds r today P none l h = tt
chosen-Holds r today P (some a) l h = h.0

if-Holds :
    (P : Account → Type 0) (b : Bool) (x y : Option Account)
    → Holds P x
    → Holds P y
    → Holds P (if b then x else y)
if-Holds P true x y h k = h
if-Holds P false x y h k = k

map-Holds :
    (P Q : Account → Type 0) (o : Option Account)
    → ((a : Account) → P a → Q a)
    → Holds P o
    → Holds Q o
map-Holds P Q none f h = tt
map-Holds P Q (some a) f h = f a h

AllInOrder-AllIn : (accounts : List Account) → AllInOrder accounts → AllIn InOrder accounts
AllInOrder-AllIn [] h = tt
AllInOrder-AllIn (a ∷ accounts) h = (h.0, AllInOrder-AllIn accounts h.1)

module _ (r : Request) (worker task charge : String) (now today : ℕ) where
  abbrev claimed : Account → Account
  claimed a = take_account r worker task charge now a

  claimed-used :
      (a : Account)
      → InOrder a
      → str_eq charge "" ≡ false
      → (ledger_of r (claimed a)).used ≡ (ledger_of r a).used + max 1 r.quota_cost
  unfolding active_units
  claimed-used a h n =
      let c = new_charge charge task r.quota_cost now in
      elim (Bool-cases (studio_quota r))
        as (λ _. (ledger_of r (claimed a)).used ≡ (ledger_of r a).used + max 1 r.quota_cost) [
          | inl s ↦
              let charged_used = with_last-used a.studio c h.1 (ap not n) in
              rw (take-studio r worker task charge now now a s, s) (omega (arith, charged_used))
          | inr s ↦
              let charged_used = with_last-used a.quota c h.0 (ap not n) in
              rw (take-quota r worker task charge now now a s, s) (omega (arith, charged_used))
        ]

  claimed-limit : (a : Account) → limit_of r (claimed a) ≡ limit_of r a
  claimed-limit a =
      let kept : (ledger_of r (claimed a)).limit ≡ (ledger_of r a).limit =
        elim (Bool-cases (studio_quota r))
          as (λ _. (ledger_of r (claimed a)).limit ≡ (ledger_of r a).limit) [
            | inl s ↦ rw (take-studio r worker task charge now now a s, s) refl
            | inr s ↦ rw (take-quota r worker task charge now now a s, s) refl
          ] in
      ap (limit_or (studio_quota r)) kept

  abbrev SyncedLimit : Option ℕ → Account → Type 0
  SyncedLimit (some n) a = r.quota_cost ≤ n
  SyncedLimit none a =
      (limit_of r (claimed a) ≡ 0) ⊎ ((ledger_of r (claimed a)).used ≤ limit_of r (claimed a))

  -- The account is idle, and the task fits into what the outside platform reported the same day, if it
  -- did, and else into the limit, where 0 is none.
  abbrev pub WithinLimit : Account → Type 0
  WithinLimit a = (str_eq a.current_task_id "" ≡ true) × SyncedLimit (synced r today a) a

  synced-SyncedLimit :
      (o : Option ℕ) (a : Account)
      → InOrder a
      → str_eq charge "" ≡ false
      → 1 ≤ r.quota_cost
      → (elim o as (λ _. Bool) [
        | some n ↦ leb r.quota_cost n
        | none ↦ limit_of r a == 0 || leb ((ledger_of r a).used + r.quota_cost) (limit_of r a)
      ])
        ≡ true
      → SyncedLimit o a
  synced-SyncedLimit (some n) a h named cost e = ground arith
  synced-SyncedLimit none a h named cost e =
      let limit = claimed-limit a in
      let used = claimed-used a h named in
      elim (Bool-cases (limit_of r a == 0)) as (λ _. SyncedLimit none a) [
        | inl z ↦ inl (ground (arith, limit))
        | inr z ↦ inr (ground (arith, limit, used))
      ]

  module _ (unescape : String → String) where
    available_idle :
        (a : Account)
        → is_available unescape today now r a ≡ true
        → str_eq a.current_task_id "" ≡ true
    unfolding is_available
    available_idle a h = ground arith

    available-quota_available :
        (a : Account)
        → is_available unescape today now r a ≡ true
        → quota_available r today a ≡ true
    unfolding is_available
    available-quota_available a h = ground arith

    available-WithinLimit :
        (a : Account)
        → str_eq charge "" ≡ false
        → 1 ≤ r.quota_cost
        → InOrder a × (is_available unescape today now r a ≡ true)
        → WithinLimit a
    unfolding quota_available
    available-WithinLimit a named cost h = (
      available_idle a h.1,
      synced-SyncedLimit (synced r today a) a h.0 named cost (available-quota_available a h.1),
    )

    select-Holds :
        (P : Account → Type 0) (accounts : List Account)
        → AllIn P accounts
        → Holds
            (λ a. P a × (is_available unescape today now r a ≡ true))
            (select_account unescape today now r accounts)
    unfolding select_account
    select-Holds P accounts h =
        let enabled = enabled_accounts unescape today now r accounts in
        let Q : Account → Type 0 = λ a. P a × (is_available unescape today now r a ≡ true) in
        let all = enabled-AllIn unescape today now r P accounts h in
        if-Holds Q (is_random r.selection_mode) _ _
          (get_elem-Holds Q enabled (r.draw % length enabled) all)
          (chosen-Holds r today Q _ enabled (sort-First r today Q enabled all))

    claimed-Holds :
        (P : Account → Type 0) (o : Option Account) (accounts : List Account)
        (change : Account → List Account)
        → Holds P o
        → Holds P
            (elim o as (λ _. Option Account × List Account) [
              | none ↦ (none, accounts)
              | some selected ↦ (some selected, change selected)
            ]).0
    claimed-Holds P none accounts change h = h
    claimed-Holds P (some a) accounts change h = h

    -- With accounts whose ledgers are in order and a task that costs something, the account that a claim
    -- gives was idle; either the outside platform reported the same day that it has the cost of the task
    -- left, or the account has no limit, or with the new charge its used quota is at most the limit.
    pub claim-WithinLimit :
        (accounts : List Account)
        → AllInOrder accounts
        → str_eq charge "" ≡ false
        → 1 ≤ r.quota_cost
        → Holds WithinLimit
            (claim_account_for_worker unescape today now r worker task charge accounts).0
    unfolding claim_account_for_worker
    claim-WithinLimit accounts h named cost =
        claimed-Holds WithinLimit (select_account unescape today now r accounts) accounts _ (
          map-Holds _ WithinLimit (select_account unescape today now r accounts)
            (λ a. available-WithinLimit a named cost)
            (select-Holds InOrder accounts (AllInOrder-AllIn accounts h)))
