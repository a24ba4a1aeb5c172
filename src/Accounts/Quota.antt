-- ===== src/Accounts/Quota.antt =====
-- app/accounts.py, giving back, settling, exhausting and resetting the quota of an account.
use api.Base.{
  ℕ, ◌+◌, ◌-◌, max, Bool, true, false, ◌&&◌, ◌||◌, not, Option, none, some, List, [], ◌∷◌, ◌++◌,
  String, str_eq, leb, ◌==◌, if◌then◌else◌, map,
}
use api.Base.Text.{str_take}
use api.Tasks.Meta.{last_n}
use api.Tasks.Update.{mem_string}
use api.Accounts.Ledger.{
  Charge, Ledger, is_charged, initialize_ledger, reconciled_used, reconcile_ledger, reset_ledger,
  refund_ledger, settle_ledger, time_out_ledger, exhaust_ledger, exhaust_studio, time_out_studio,
}
use api.Accounts.Account.{Account}
use api.Accounts.Claim.{update_account}

-- `_is_studio_charge`
abbrev pub is_studio_charge : String → Bool
is_studio_charge id = str_eq (str_take 7 id) "studio:"

-- `mutate`, inside `refund_account_quota`; without a ledger the uses are counted one by one.
unfoldable pub refund_account : String → ℕ → Account → Option Account
refund_account refund_id now a =
    let studio = refund_ledger refund_id now a.studio in
    let quota = refund_ledger refund_id now a.quota in
    let ids = a.quota_refund_ids in
    let counted = record a {
      quota = record (a.quota) { used = a.quota.used - 1 };
      quota_refund_ids = if str_eq refund_id "" then ids else last_n 1000 (ids ++ refund_id ∷ []);
      updated_at = now;
    } in
    if is_studio_charge refund_id
    then (if a.studio.initialized && studio.0
        then some (record a { studio = studio.1; updated_at = now })
        else none)
    else if a.quota.initialized
    then (if quota.0 then some (record a { quota = quota.1; updated_at = now }) else none)
    else if not (str_eq refund_id "") && mem_string refund_id ids
    then none
    else some counted

-- The accounts where one was changed, and whether one was.
abbrev pub changed_accounts : Option (List Account) → List Account → Bool × List Account
changed_accounts none accounts = (false, accounts)
changed_accounts (some changed) accounts = (true, changed)

unfoldable pub refund_account_quota :
    (account_id refund_id : String) → ℕ → List Account → Bool × List Account
refund_account_quota account_id refund_id now accounts =
    if str_eq account_id ""
    then (false, accounts)
    else changed_accounts (update_account account_id (refund_account refund_id now) accounts)
        accounts

-- `mutate`, inside `settle_account_quota`.
unfoldable pub settle_account : String → ℕ → Account → Option Account
settle_account charge_id now a =
    let studio = settle_ledger charge_id now a.studio in
    let quota = settle_ledger charge_id now a.quota in
    if is_studio_charge charge_id
    then (if studio.0 then some (record a { studio = studio.1; updated_at = now }) else none)
    else (if quota.0 then some (record a { quota = quota.1; updated_at = now }) else none)

unfoldable pub settle_account_quota :
    (account_id charge_id : String) → ℕ → List Account → Bool × List Account
settle_account_quota account_id charge_id now accounts =
    if str_eq account_id "" || str_eq charge_id ""
    then (false, accounts)
    else changed_accounts (update_account account_id (settle_account charge_id now) accounts)
        accounts

unfoldable pub time_out_account : String → (today now : ℕ) → Account → Account
time_out_account charge_id today now a =
    if is_studio_charge charge_id
    then record a { studio = time_out_studio charge_id today now a.studio; updated_at = now }
    else record a { quota = time_out_ledger charge_id today now a.quota; updated_at = now }

unfoldable pub exhaust_timed_out_account :
    (account_id charge_id : String) → (today now : ℕ) → List Account → Bool × List Account
exhaust_timed_out_account account_id charge_id today now accounts =
    if str_eq account_id ""
    then (false, accounts)
    else changed_accounts
        (update_account account_id (λ a. some (time_out_account charge_id today now a)) accounts)
        accounts

unfoldable pub exhaust_account : String → (today now : ℕ) → Account → Account
exhaust_account charge_id today now a =
    if is_studio_charge charge_id
    then record a { studio = exhaust_studio charge_id today now a.studio; updated_at = now }
    else record a { quota = exhaust_ledger charge_id today now a.quota; updated_at = now }

unfoldable pub exhaust_account_quota :
    (account_id charge_id : String) → (today now : ℕ) → List Account → Bool × List Account
exhaust_account_quota account_id charge_id today now accounts =
    if str_eq account_id ""
    then (false, accounts)
    else changed_accounts
        (update_account account_id (λ a. some (exhaust_account charge_id today now a)) accounts)
        accounts

abbrev pub is_qianwen : Account → Bool
is_qianwen a = str_eq a.platform "qianwen"

unfoldable pub reset_account : ℕ → Account → Account
reset_account now a = record a {
  quota = reset_ledger a.quota;
  studio = if is_qianwen a then reset_ledger a.studio else a.studio;
  updated_at = now;
}

unfoldable pub reset_account_quota : String → ℕ → List Account → Bool × List Account
reset_account_quota account_id now accounts =
    changed_accounts (update_account account_id (λ a. some (reset_account now a)) accounts) accounts

abbrev same_charges : List Charge → List Charge → Bool
same_charges [] [] = true
same_charges (c ∷ cs) (d ∷ ds) = str_eq c.charge_id d.charge_id && same_charges cs ds
same_charges _ _ = false

-- `_reconcile_account(account) or _reconcile_studio_quota(account)`: the studio is looked at only
-- where the default quota was in order.
unfoldable pub reconcile_account : ℕ → Account → Account
reconcile_account now a =
    let quota = reconcile_ledger a.quota in
    let studio = if is_qianwen a then reconcile_ledger a.studio else a.studio in
    let repaired =
      not (quota.used == a.quota.used) || not (same_charges quota.charges a.quota.charges) in
    let studio_repaired =
      not (studio.used == a.studio.used) || not (same_charges studio.charges a.studio.charges) in
    if repaired
    then record a { quota = quota; updated_at = now }
    else if studio_repaired
    then record a { studio = studio; updated_at = now }
    else a

unfoldable pub reconcile_account_quotas : ℕ → List Account → List Account
reconcile_account_quotas now accounts = map (reconcile_account now) accounts

-- One account of `reset_daily_account_quotas_if_needed`.
unfoldable pub reset_daily : (today now : ℕ) → Account → Account
unfolding reset_account
reset_daily today now a =
    let reset = record (reset_account now a) {
      quota_reset_date = today;
      studio_reset_date = if is_qianwen a then today else a.studio_reset_date;
    } in
    if a.quota_reset_date == today then reconcile_account now a else reset

unfoldable pub reset_daily_account_quotas_if_needed : (today now : ℕ) → List Account → List Account
reset_daily_account_quotas_if_needed today now accounts = map (reset_daily today now) accounts

unfoldable pub set_limits : Option ℕ → Option ℕ → ℕ → Account → Account
set_limits quota_limit studio_limit now a =
    let quota = elim quota_limit as (λ _. Ledger) [
      | none ↦ a.quota
      | some n ↦ record (a.quota) { limit = some n }
    ] in
    let studio = elim studio_limit as (λ _. Ledger) [
      | none ↦ a.studio
      | some n ↦ if is_qianwen a then record (a.studio) { limit = some n } else a.studio
    ] in
    record a { quota = quota; studio = studio; updated_at = now }

unfoldable pub update_account_quota :
    String → Option ℕ → Option ℕ → ℕ → List Account → Bool × List Account
update_account_quota account_id quota_limit studio_limit now accounts =
    changed_accounts
      (update_account account_id (λ a. some (set_limits quota_limit studio_limit now a)) accounts)
      accounts

-- The units of the first charge with the identifier, if it is still charged.
unfoldable pub pending_units : String → List Charge → ℕ
pending_units id [] = 0
pending_units id (c ∷ cs) =
    let later = pending_units id cs in
    if str_eq c.charge_id id then (if is_charged c.status then max 1 c.units else 0) else later

-- `mutate`, inside `sync_qianwen_ai_studio_credit`, of an account of the platform.
unfoldable pub sync_credit : (available sign_in : ℕ) → String → (today now : ℕ) → Account → Account
unfolding initialize_ledger
sync_credit available sign_in pending_charge_id today now a =
    let ledger = initialize_ledger a.studio in
    let used = reconciled_used ledger in
    let pending = pending_units pending_charge_id ledger.charges in
    let studio = record ledger {
      limit = some (used - pending + available);
      used = used;
      exhausted_date = if leb pending available then 0 else ledger.exhausted_date;
    } in
    record a {
      studio = studio;
      credit_sync_date = today;
      credit_synced_at = now;
      credit_available_at_sync = available;
      credit_used_at_sync = used - pending;
      credit_sign_in = sign_in;
      updated_at = now;
    }

-- `none` where the source raises.
unfoldable pub sync_qianwen_ai_studio_credit :
    String
    → (available sign_in : ℕ) → String
    → (today now : ℕ) → List Account
    → Option (List Account)
sync_qianwen_ai_studio_credit account_id available sign_in pending_charge_id today now accounts =
    update_account account_id
      (λ a.
        if is_qianwen a
        then some (sync_credit available sign_in pending_charge_id today now a)
        else none)
      accounts
