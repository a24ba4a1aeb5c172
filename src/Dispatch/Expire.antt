-- ===== src/Dispatch/Expire.antt =====
-- app/store.py, `expire_task_if_timeout`: a task that is too old fails, the account that it held is
-- exhausted and let go, and its reservation is refunded. A stored task is its metadata with the part
-- of its result that is read here; `load_result` gives that part.
use api.Base.{
  ℕ, Bool, true, false, ◌&&◌, ◌||◌, not, List, [], ◌∷◌, String, str_eq, ltb, if◌then◌else◌,
}
use api.Tasks.Meta.{Meta, is_running, is_submitted, is_task_expired}
use api.Tasks.Update.{mark_failed}
use api.Tasks.Outcome.{Outcome, mark_result_once}
use api.Tokens.Quota.{World, refund_temp_quota_hash}
use api.Accounts.Account.{Account}
use api.Accounts.Claim.{clear_account_current_task}
use api.Accounts.Quota.{exhaust_timed_out_account}

pub record StoredTask : Type 0 where
  pub metadata : Meta
  pub decoded_main_url : String
  pub account_id : String
  pub account_quota_charge_id : String
  pub outcome : Outcome

-- What tasks share: the accounts, and the tokens with the ledger.
pub record Shared : Type 0 where
  pub accounts : List Account
  pub world : World

-- The time of a call: its date and its instant.
pub record Clock : Type 0 where
  pub today : ℕ
  pub now : ℕ

-- Whether the task runs as a retry.
abbrev pub retry_runs : Meta → Bool
retry_runs m = ltb 0 m.retry_count && (is_running m.status || is_submitted m.status)

-- The accounts once the task does not hold one any more.
unfoldable pub release_accounts : Clock → StoredTask → List Account → List Account
release_accounts clock t accounts =
    let exhausted =
      (exhaust_timed_out_account t.account_id t.account_quota_charge_id clock.today clock.now
        accounts).1 in
    if str_eq t.account_id ""
    then accounts
    else clear_account_current_task t.account_id t.metadata.id clock.now exhausted

-- `normalize` is `str.strip().lower()`, and `fresh_id` names the transaction of a task, a new one for
-- each.
module _ (normalize : String → String) (fresh_id : String → String) (clock : Clock) where
  unfoldable pub expire_task_if_timeout : StoredTask → Shared → Bool × StoredTask × Shared
  expire_task_if_timeout t shared =
      let m = t.metadata in
      let accounts = release_accounts clock t shared.accounts in
      let failed_task = record t {
        metadata = mark_failed (if retry_runs m then "重试超过30分钟，生成失败" else "超时生成失败") clock.now m;
      } in
      let refund =
        refund_temp_quota_hash normalize m.owner_token_hash m.id (fresh_id m.id) clock.now
          shared.world in
      let marked = record failed_task {
        outcome = (mark_result_once true "temp_quota_refunded" clock.now t.outcome).1;
      } in
      let released : Shared = record { accounts = accounts; world = shared.world } in
      let refunded_world : Shared = record { accounts = accounts; world = refund.1 } in
      if not (is_task_expired clock.now m) || not (str_eq t.decoded_main_url "")
      then (false, t, shared)
      else if str_eq m.owner_token_hash ""
      then (true, failed_task, released)
      else if refund.0
      then (true, marked, refunded_world)
      else (true, failed_task, refunded_world)

  -- The part of `list_tasks` that changes the store: every task that is too old is expired.
  unfoldable pub expire_tasks : List StoredTask → Shared → List StoredTask × Shared
  unfolding expire_task_if_timeout
  expire_tasks [] shared = ([], shared)
  expire_tasks (t ∷ tasks) shared =
      let here = expire_task_if_timeout t shared in
      let later = expire_tasks tasks here.2 in (here.1 ∷ later.0, later.1)
