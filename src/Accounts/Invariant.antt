-- ===== src/Accounts/Invariant.antt =====
-- app/accounts.py: the ledgers of all accounts over a sequence of calls.
use api.Base.{ℕ, Bool, true, false, Option, none, some, List, [], ◌∷◌, String, str_eq, ◌≡◌}
use api.Accounts.Account.{Account}
use api.Accounts.Select.{select_account}
use api.Accounts.Claim.{
  or_same, update_account, take_account, maintain_account, clear_task, restore_task, clear_pin,
  claim_account_for_worker, claim_account_for_maintenance, clear_account_current_task,
  restore_account_current_task, set_account_cooldown, set_account_pinned_proxy_node,
  clear_account_pinned_proxy_node,
}
use api.Accounts.Quota.{
  changed_accounts, refund_account, settle_account, time_out_account, exhaust_account,
  reset_account, reconcile_account, reset_daily, set_limits, refund_account_quota,
  settle_account_quota, exhaust_timed_out_account, exhaust_account_quota, reset_account_quota,
  reconcile_account_quotas, reset_daily_account_quotas_if_needed, update_account_quota,
  sync_qianwen_ai_studio_credit,
}
use api.Accounts.Event.{
  Event, Timed, step, run, claim, maintain, clear, restore, cool_down, pin, unpin, refund, settle,
  time_out, exhaust, reset, reconcile, new_day, set_limit, sync,
}
use api.Accounts.InOrder.{
  InOrder, AllInOrder, OneIn, ListIn, if-AllInOrder, if-ListBoth, update-ListIn, or_same-AllInOrder,
  changed-AllInOrder, map-AllInOrder,
}
use api.Accounts.Kept.{
  take-InOrder, refund-OneIn, settle-OneIn, time_out-InOrder, exhaust-InOrder, reset-InOrder,
  reconcile-InOrder, daily-InOrder, limits-InOrder, sync-OneIn, clear-OneIn, restore-OneIn,
  unpin-OneIn,
}

restored-AllInOrder :
    (o : Option (List Account)) (accounts : List Account)
    → ListIn o
    → AllInOrder accounts
    → AllInOrder
        (elim o as (λ _. Bool × List Account) [
          | none ↦ (false, accounts)
          | some restored ↦ (true, restored)
        ]).1
restored-AllInOrder none accounts h k = k
restored-AllInOrder (some restored) accounts h k = h

-- A change of the charges of an exhausted account is by its charge.
abbrev pub Charged : Event → Type 0
Charged (time_out id charge) = str_eq charge "" ≡ false
Charged (exhaust id charge) = str_eq charge "" ≡ false
Charged _ = Unit

abbrev pub AllCharged : List Timed → Type 0
AllCharged [] = Unit
AllCharged (t ∷ events) = Charged t.event × AllCharged events

selected-AllInOrder :
    (o : Option Account) (accounts : List Account) (change : Account → Account)
    → ((a : Account) → InOrder a → InOrder (change a))
    → AllInOrder accounts
    → AllInOrder
        (elim o as (λ _. Option Account × List Account) [
          | none ↦ (none, accounts)
          | some selected ↦ (
            some selected,
            or_same (update_account selected.id (λ a. some (change a)) accounts) accounts,
          )
        ]).1
selected-AllInOrder none accounts change keep h = h
selected-AllInOrder (some selected) accounts change keep h =
    or_same-AllInOrder _ accounts (update-ListIn selected.id (λ a. some (change a)) accounts keep h)
      h

-- A call at one account.
module _ (id : String) (accounts : List Account) (h : AllInOrder accounts) where
  one-AllInOrder :
      (change : Account → Option Account)
      → ((a : Account) → InOrder a → OneIn (change a))
      → AllInOrder (changed_accounts (update_account id change accounts) accounts).1
  one-AllInOrder change keep =
      changed-AllInOrder _ accounts (update-ListIn id change accounts keep h) h

  same-AllInOrder :
      (change : Account → Option Account)
      → ((a : Account) → InOrder a → OneIn (change a))
      → AllInOrder (or_same (update_account id change accounts) accounts)
  same-AllInOrder change keep =
      or_same-AllInOrder _ accounts (update-ListIn id change accounts keep h) h

module _ (unescape : String → String) where
  pub step-AllInOrder :
      (e : Event) (today now : ℕ) (accounts : List Account)
      → Charged e
      → AllInOrder accounts
      → AllInOrder (step unescape e today now accounts)
  unfolding step claim_account_for_worker claim_account_for_maintenance maintain_account
      clear_account_current_task restore_account_current_task set_account_cooldown
      set_account_pinned_proxy_node clear_account_pinned_proxy_node refund_account_quota
      settle_account_quota exhaust_timed_out_account exhaust_account_quota reset_account_quota
      reconcile_account_quotas reset_daily_account_quotas_if_needed update_account_quota
      sync_qianwen_ai_studio_credit
  step-AllInOrder (claim r worker task charge) today now accounts c h =
      selected-AllInOrder (select_account unescape today now r accounts) accounts
        (take_account r worker task charge now) (take-InOrder r worker task charge now) h
  step-AllInOrder (maintain r worker) today now accounts c h =
      selected-AllInOrder (select_account unescape today now r accounts) accounts _ (λ a k. k) h
  step-AllInOrder (clear id task) today now accounts c h =
      if-AllInOrder _ accounts _ h
        (same-AllInOrder id accounts h (clear_task task now) (clear-OneIn task now))
  step-AllInOrder (restore id task worker charge) today now accounts c h =
      if-ListBoth _ (false, accounts) _ h
        (restored-AllInOrder _ accounts
          (update-ListIn id (restore_task task worker charge now) accounts
            (restore-OneIn task worker charge now) h)
          h)
  step-AllInOrder (cool_down id seconds reason) today now accounts c h =
      same-AllInOrder id accounts h _ (λ a k. k)
  step-AllInOrder (pin id node) today now accounts c h =
      if-AllInOrder _ accounts _ h (same-AllInOrder id accounts h _ (λ a k. k))
  step-AllInOrder (unpin id node) today now accounts c h =
      if-AllInOrder _ accounts _ h
        (same-AllInOrder id accounts h (clear_pin node now) (unpin-OneIn node now))
  step-AllInOrder (refund id charge) today now accounts c h =
      if-ListBoth _ (false, accounts) _ h
        (one-AllInOrder id accounts h (refund_account charge now) (refund-OneIn charge now))
  step-AllInOrder (settle id charge) today now accounts c h =
      if-ListBoth _ (false, accounts) _ h
        (one-AllInOrder id accounts h (settle_account charge now) (settle-OneIn charge now))
  step-AllInOrder (time_out id charge) today now accounts c h =
      if-ListBoth _ (false, accounts) _ h
        (one-AllInOrder id accounts h (λ a. some (time_out_account charge today now a))
          (λ a. time_out-InOrder charge today now a c))
  step-AllInOrder (exhaust id charge) today now accounts c h =
      if-ListBoth _ (false, accounts) _ h
        (one-AllInOrder id accounts h (λ a. some (exhaust_account charge today now a))
          (λ a. exhaust-InOrder charge today now a c))
  step-AllInOrder (reset id) today now accounts c h =
      one-AllInOrder id accounts h (λ a. some (reset_account now a)) (reset-InOrder now)
  step-AllInOrder reconcile today now accounts c h =
      map-AllInOrder (reconcile_account now) accounts (reconcile-InOrder now) h
  step-AllInOrder new_day today now accounts c h =
      map-AllInOrder (reset_daily today now) accounts (daily-InOrder today now) h
  step-AllInOrder (set_limit id limit studio) today now accounts c h =
      one-AllInOrder id accounts h (λ a. some (set_limits limit studio now a))
        (limits-InOrder limit studio now)
  step-AllInOrder (sync id available sign_in charge) today now accounts c h =
      same-AllInOrder id accounts h _ (sync-OneIn available sign_in charge today now)

  -- After any sequence of calls, in which a charge is named where a quota is exhausted, and starting with
  -- accounts whose ledgers are in order, both ledgers of every account are in order: one that is in use
  -- counts the base and the units of the charges in force, and one that is not has no charges.
  pub run-AllInOrder :
      (events : List Timed) (accounts : List Account)
      → AllCharged events
      → AllInOrder accounts
      → AllInOrder (run unescape events accounts)
  unfolding run
  run-AllInOrder [] accounts c h = h
  run-AllInOrder (t ∷ events) accounts c h =
      run-AllInOrder events (step unescape t.event t.today t.now accounts) c.1
        (step-AllInOrder t.event t.today t.now accounts c.0 h)
