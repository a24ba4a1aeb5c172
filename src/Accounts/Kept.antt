-- ===== src/Accounts/Kept.antt =====
-- app/accounts.py: the changes of one account, and its ledgers.
use api.Base.{
  ℕ, Bool, true, false, ◌&&◌, not, Option, none, some, List, String, str_eq, ◌≡◌, refl, arith, inl,
  ◌-◌, if◌then◌else◌, ◌==◌, inr,
}
use api.Accounts.Ledger.{Ledger, reconciled_used, refund_ledger, settle_ledger, reconcile_ledger}
use api.Accounts.Account.{Account}
use api.Accounts.Select.{Request, studio_quota}
use api.Accounts.Claim.{take_account, clear_task, restore_task, clear_pin}
use api.Accounts.Quota.{
  is_studio_charge, is_qianwen, refund_account, settle_account, time_out_account, exhaust_account,
  reset_account, reconcile_account, reset_daily, set_limits, sync_credit,
}
use api.Accounts.Consistency.{
  Consistent, add-Consistent, reset-Consistent, refund-Consistent, settle-Consistent,
  reconcile-Consistent, time_out-Consistent, exhaust-Consistent, exhaust_studio-Consistent,
  time_out_studio-Consistent,
}
use api.Accounts.InOrder.{InOrder, OneIn, if-InOrder, if-OneIn, if-Ledger}

pub take-InOrder :
    (r : Request) (worker task charge : String) (now : ℕ) (a : Account)
    → InOrder a
    → InOrder (take_account r worker task charge now a)
unfolding take_account
take-InOrder r worker task charge now a h =
    if-InOrder (studio_quota r) _ _ (h.0, add-Consistent charge task r.quota_cost now a.studio)
      (add-Consistent charge task r.quota_cost now a.quota, h.1)

pub studio-OneIn :
    (b : Bool) (a : Account) (l : Ledger) (now : ℕ)
    → InOrder a
    → Consistent l
    → OneIn (if b then some (record a { studio = l; updated_at = now }) else none)
studio-OneIn true a l now h k = (h.0, k)
studio-OneIn false a l now h k = tt

pub quota-OneIn :
    (b : Bool) (a : Account) (l : Ledger) (now : ℕ)
    → InOrder a
    → Consistent l
    → OneIn (if b then some (record a { quota = l; updated_at = now }) else none)
quota-OneIn true a l now h k = (k, h.1)
quota-OneIn false a l now h k = tt

pub counted-OneIn :
    (b : Bool) (a : Account) (ids : List String) (now : ℕ)
    → a.quota.initialized ≡ false
    → InOrder a
    → OneIn (
        if b
        then none
        else some (record a {
          quota = record (a.quota) { used = a.quota.used - 1 };
          quota_refund_ids = ids;
          updated_at = now;
        }))
counted-OneIn true a ids now closed h = tt
counted-OneIn false a ids now closed (inl k, h) = (inl k, h)
counted-OneIn false a ids now closed (inr k, h) = absurd (ground (arith, closed, k.0))

pub split-OneIn :
    (b : Bool) (x y : Option Account)
    → (b ≡ true → OneIn x)
    → (b ≡ false → OneIn y)
    → OneIn (if b then x else y)
split-OneIn true x y f g = f refl
split-OneIn false x y f g = g refl

pub refund-OneIn :
    (id : String) (now : ℕ) (a : Account) → InOrder a → OneIn (refund_account id now a)
unfolding refund_account
refund-OneIn id now a h =
    if-OneIn (is_studio_charge id) _ _
      (studio-OneIn _ a (refund_ledger id now a.studio).1 now h
        (refund-Consistent id now a.studio h.1))
      (split-OneIn a.quota.initialized _ _
        (λ _.
          quota-OneIn _ a (refund_ledger id now a.quota).1 now h
            (refund-Consistent id now a.quota h.0))
        (λ closed. counted-OneIn _ a _ now closed h))

pub settle-OneIn :
    (id : String) (now : ℕ) (a : Account) → InOrder a → OneIn (settle_account id now a)
unfolding settle_account
settle-OneIn id now a h =
    if-OneIn (is_studio_charge id) _ _
      (studio-OneIn _ a (settle_ledger id now a.studio).1 now h
        (settle-Consistent id now a.studio h.1))
      (quota-OneIn _ a (settle_ledger id now a.quota).1 now h
        (settle-Consistent id now a.quota h.0))

pub time_out-InOrder :
    (id : String) (today now : ℕ) (a : Account)
    → str_eq id "" ≡ false
    → InOrder a
    → InOrder (time_out_account id today now a)
unfolding time_out_account
time_out-InOrder id today now a n h =
    if-InOrder (is_studio_charge id) _ _ (h.0, time_out_studio-Consistent id today now a.studio n)
      (time_out-Consistent id today now a.quota n, h.1)

pub exhaust-InOrder :
    (id : String) (today now : ℕ) (a : Account)
    → str_eq id "" ≡ false
    → InOrder a
    → InOrder (exhaust_account id today now a)
unfolding exhaust_account
exhaust-InOrder id today now a n h =
    if-InOrder (is_studio_charge id) _ _ (h.0, exhaust_studio-Consistent id today now a.studio)
      (exhaust-Consistent id today now a.quota n h.0, h.1)

pub reset-InOrder : (now : ℕ) (a : Account) → InOrder a → InOrder (reset_account now a)
unfolding reset_account
reset-InOrder now a h =
    (reset-Consistent a.quota, if-Ledger (is_qianwen a) _ _ (reset-Consistent a.studio) h.1)

pub reconcile-InOrder : (now : ℕ) (a : Account) → InOrder a → InOrder (reconcile_account now a)
unfolding reconcile_account
reconcile-InOrder now a h =
    if-InOrder _ (record a { quota = reconcile_ledger a.quota; updated_at = now }) _
      (reconcile-Consistent a.quota h.0, h.1)
      (if-InOrder _
        (record a {
          studio = if is_qianwen a then reconcile_ledger a.studio else a.studio;
          updated_at = now;
        })
        a (h.0, if-Ledger (is_qianwen a) _ _ (reconcile-Consistent a.studio h.1) h.1) h)

pub daily-InOrder : (today now : ℕ) (a : Account) → InOrder a → InOrder (reset_daily today now a)
unfolding reset_daily
daily-InOrder today now a h =
    if-InOrder (a.quota_reset_date == today) _ _ (reconcile-InOrder now a h) (reset-InOrder now a h)

pub limits-InOrder :
    (limit studio : Option ℕ) (now : ℕ) (a : Account)
    → InOrder a
    → InOrder (set_limits limit studio now a)
unfolding set_limits reconciled_used
limits-InOrder none none now a h = h
limits-InOrder (some n) none now a h = h
limits-InOrder none (some m) now a h =
    (h.0, if-Ledger (is_qianwen a) (record (a.studio) { limit = some m }) a.studio h.1 h.1)
limits-InOrder (some n) (some m) now a h =
    (h.0, if-Ledger (is_qianwen a) (record (a.studio) { limit = some m }) a.studio h.1 h.1)

pub sync-OneIn :
    (available sign_in : ℕ) (charge : String) (today now : ℕ) (a : Account)
    → InOrder a
    → OneIn (if is_qianwen a then some (sync_credit available sign_in charge today now a) else none)
unfolding sync_credit reconciled_used
sync-OneIn available sign_in charge today now a h =
    if-OneIn (is_qianwen a) (some (sync_credit available sign_in charge today now a)) none
      (h.0, inr (refl, refl)) tt

pub clear-OneIn :
    (task : String) (now : ℕ) (a : Account) → InOrder a → OneIn (clear_task task now a)
unfolding clear_task
clear-OneIn task now a h =
    if-OneIn _ none
      (some (record a {
        current_task_id = "";
        current_worker_id = "";
        current_started_at = 0;
        current_quota_charge_id = "";
        updated_at = now;
      }))
      tt h

pub restore-OneIn :
    (task worker charge : String) (now : ℕ) (a : Account)
    → InOrder a
    → OneIn (restore_task task worker charge now a)
unfolding restore_task
restore-OneIn task worker charge now a h =
    if-OneIn (not (str_eq a.current_task_id "") && not (str_eq a.current_task_id task)) none
      (some (record a {
        current_task_id = task;
        current_worker_id = if str_eq worker "" then "result-watch" else worker;
        current_started_at = if a.current_started_at == 0 then now else a.current_started_at;
        current_quota_charge_id = if str_eq charge "" then a.current_quota_charge_id else charge;
        updated_at = now;
      }))
      tt h

pub unpin-OneIn : (node : String) (now : ℕ) (a : Account) → InOrder a → OneIn (clear_pin node now a)
unfolding clear_pin
unpin-OneIn node now a h =
    if-OneIn _ none (some (record a { pinned_proxy_node_id = ""; updated_at = now })) tt h
