-- ===== src/Accounts/Event.antt =====
-- app/accounts.py: the calls that change accounts, as events on the stored list.
use api.Base.{ℕ, Option, List, [], ◌∷◌, String}
use api.Accounts.Account.{Account}
use api.Accounts.Select.{Request}
use api.Accounts.Claim.{
  or_same, claim_account_for_worker, claim_account_for_maintenance, clear_account_current_task,
  restore_account_current_task, set_account_cooldown, set_account_pinned_proxy_node,
  clear_account_pinned_proxy_node,
}
use api.Accounts.Quota.{
  refund_account_quota, settle_account_quota, exhaust_timed_out_account, exhaust_account_quota,
  reset_account_quota, reconcile_account_quotas, reset_daily_account_quotas_if_needed,
  update_account_quota, sync_qianwen_ai_studio_credit,
}

pub data Event : Type 0 where
  claim : Request → (worker_id task_id charge_id : String) → Event
  maintain : Request → (worker_id : String) → Event
  clear : (account_id task_id : String) → Event
  restore : (account_id task_id worker_id charge_id : String) → Event
  cool_down : (account_id : String) → ℕ → (reason : String) → Event
  pin : (account_id node_id : String) → Event
  unpin : (account_id node_id : String) → Event
  refund : (account_id charge_id : String) → Event
  settle : (account_id charge_id : String) → Event
  time_out : (account_id charge_id : String) → Event
  exhaust : (account_id charge_id : String) → Event
  reset : (account_id : String) → Event
  reconcile : Event
  new_day : Event
  set_limit : (account_id : String) → (quota_limit studio_limit : Option ℕ) → Event
  sync : (account_id : String) → (available sign_in : ℕ) → (charge_id : String) → Event

-- An event with its date and its time.
pub record Timed : Type 0 where
  pub event : Event
  pub today : ℕ
  pub now : ℕ

module _ (unescape : String → String) where
  unfoldable pub step : Event → (today now : ℕ) → List Account → List Account
  step (claim r worker task charge) today now accounts =
      (claim_account_for_worker unescape today now r worker task charge accounts).1
  step (maintain r worker) today now accounts =
      (claim_account_for_maintenance unescape today now r worker accounts).1
  step (clear id task) today now accounts = clear_account_current_task id task now accounts
  step (restore id task worker charge) today now accounts =
      (restore_account_current_task id task worker charge now accounts).1
  step (cool_down id seconds reason) today now accounts =
      set_account_cooldown id seconds reason now accounts
  step (pin id node) today now accounts = set_account_pinned_proxy_node id node now accounts
  step (unpin id node) today now accounts = clear_account_pinned_proxy_node id node now accounts
  step (refund id charge) today now accounts = (refund_account_quota id charge now accounts).1
  step (settle id charge) today now accounts = (settle_account_quota id charge now accounts).1
  step (time_out id charge) today now accounts =
      (exhaust_timed_out_account id charge today now accounts).1
  step (exhaust id charge) today now accounts =
      (exhaust_account_quota id charge today now accounts).1
  step (reset id) today now accounts = (reset_account_quota id now accounts).1
  step reconcile today now accounts = reconcile_account_quotas now accounts
  step new_day today now accounts = reset_daily_account_quotas_if_needed today now accounts
  step (set_limit id limit studio) today now accounts =
      (update_account_quota id limit studio now accounts).1
  step (sync id available sign_in charge) today now accounts =
      or_same (sync_qianwen_ai_studio_credit id available sign_in charge today now accounts)
        accounts

  unfoldable pub run : List Timed → List Account → List Account
  unfolding step
  run [] accounts = accounts
  run (t ∷ events) accounts = run events (step t.event t.today t.now accounts)
