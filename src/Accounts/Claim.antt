-- ===== src/Accounts/Claim.antt =====
-- app/accounts.py, taking an account for a task or for maintenance, and giving it back. The accounts
-- come back as they stand after the call. A new charge has a random part, so its identifier is an
-- argument: that of the studio starts with `studio:`.
use Prim.Native.String.{◌++◌ as str_append}
use api.Base.{
  ℕ, ◌+◌, max, Bool, true, false, ◌&&◌, ◌||◌, not, Option, none, some, List, [], ◌∷◌, String,
  str_eq, ◌==◌, if◌then◌else◌,
}
use api.Base.Text.{str_take, strip}
use api.Accounts.Ledger.{add_charge}
use api.Accounts.Account.{Account}
use api.Accounts.Select.{Request, studio_quota, select_account}

-- The first account with the identifier, changed by what may refuse it; `none` where none is changed.
unfoldable pub update_account :
    String → (Account → Option Account) → List Account → Option (List Account)
update_account id change [] = none
update_account id change (a ∷ rest) =
    let later = elim (update_account id change rest) as (λ _. Option (List Account)) [
      | none ↦ none
      | some changed ↦ some (a ∷ changed)
    ] in
    let here = elim (change a) as (λ _. Option (List Account)) [
      | none ↦ none
      | some b ↦ some (b ∷ rest)
    ] in
    if str_eq a.id id then here else later

abbrev pub or_same : Option (List Account) → List Account → List Account
or_same none accounts = accounts
or_same (some changed) accounts = changed

-- What a claim writes into the account.
unfoldable pub take_account :
    Request → (worker_id task_id charge_id : String) → ℕ → Account → Account
take_account r worker_id task_id charge_id now a =
    let taken = record a {
      last_used_worker_id = worker_id;
      last_used_at = now;
      current_task_id = task_id;
      current_worker_id = worker_id;
      current_started_at = now;
      current_quota_charge_id = charge_id;
      updated_at = now;
    } in
    if studio_quota r
    then record taken { studio = add_charge charge_id task_id r.quota_cost now a.studio }
    else record taken { quota = add_charge charge_id task_id r.quota_cost now a.quota }

module _ (unescape : String → String) (today now : ℕ) where
  -- The request carries `max(1, quota_cost)`.
  unfoldable pub claim_account_for_worker :
      Request
      → (worker_id task_id charge_id : String) → List Account
      → Option Account × List Account
  claim_account_for_worker r worker_id task_id charge_id accounts =
      elim (select_account unescape today now r accounts) as (λ _. Option Account × List Account) [
        | none ↦ (none, accounts)
        | some selected ↦ (
          some selected,
          or_same
              (update_account selected.id
                (λ a. some (take_account r worker_id task_id charge_id now a)) accounts)
              accounts,
        )
      ]

  unfoldable pub maintain_account : String → Account → Account
  maintain_account worker_id a = record a {
    current_task_id = str_append "maintenance:" worker_id;
    current_worker_id = worker_id;
    current_started_at = now;
    updated_at = now;
  }

  unfoldable pub claim_account_for_maintenance :
      Request → String → List Account → Option Account × List Account
  claim_account_for_maintenance r worker_id accounts =
      elim (select_account unescape today now r accounts) as (λ _. Option Account × List Account) [
        | none ↦ (none, accounts)
        | some selected ↦ (
          some selected,
          or_same (update_account selected.id (λ a. some (maintain_account worker_id a)) accounts)
              accounts,
        )
      ]

-- `clear_account_current_task`: nothing where the account runs another task than the one named.
unfoldable pub clear_task : String → ℕ → Account → Option Account
clear_task task_id now a =
    let cleared = record a {
      current_task_id = "";
      current_worker_id = "";
      current_started_at = 0;
      current_quota_charge_id = "";
      updated_at = now;
    } in
    if not (str_eq task_id "") && not (str_eq a.current_task_id task_id) then none else some cleared

unfoldable pub clear_account_current_task :
    (account_id task_id : String) → ℕ → List Account → List Account
clear_account_current_task account_id task_id now accounts =
    let cleared = or_same (update_account account_id (clear_task task_id now) accounts) accounts in
    if str_eq account_id "" then accounts else cleared

abbrev str_or : String → String → String
str_or s d = if str_eq s "" then d else s

-- `restore`, inside `restore_account_current_task`.
unfoldable pub restore_task : (task_id worker_id charge_id : String) → ℕ → Account → Option Account
restore_task task_id worker_id charge_id now a =
    let restored = record a {
      current_task_id = task_id;
      current_worker_id = str_or worker_id "result-watch";
      current_started_at = if a.current_started_at == 0 then now else a.current_started_at;
      current_quota_charge_id = str_or charge_id a.current_quota_charge_id;
      updated_at = now;
    } in
    if not (str_eq a.current_task_id "") && not (str_eq a.current_task_id task_id)
    then none
    else some restored

-- The identifiers are given as `strip().lower()` of the arguments.
unfoldable pub restore_account_current_task :
    (account_id task_id worker_id charge_id : String) → ℕ → List Account → Bool × List Account
restore_account_current_task account_id task_id worker_id charge_id now accounts =
    if str_eq account_id "" || str_eq task_id ""
    then (false, accounts)
    else elim (update_account account_id (restore_task task_id worker_id charge_id now) accounts)
        as (λ _. Bool × List Account) [
          | none ↦ (false, accounts)
          | some restored ↦ (true, restored)
        ]

unfoldable pub set_account_cooldown : String → ℕ → String → ℕ → List Account → List Account
set_account_cooldown account_id seconds reason now accounts =
    or_same
      (update_account account_id
        (λ a. some (record a {
          cooldown_until = now + max 1 seconds;
          cooldown_reason = str_take 200 reason;
          updated_at = now;
        }))
        accounts)
      accounts

unfoldable pub set_account_pinned_proxy_node :
    (account_id node_id : String) → ℕ → List Account → List Account
set_account_pinned_proxy_node account_id node_id now accounts =
    let pinned =
      or_same
        (update_account account_id
          (λ a. some (record a { pinned_proxy_node_id = node_id; updated_at = now })) accounts)
        accounts in
    if str_eq account_id "" || str_eq node_id "" then accounts else pinned

unfoldable pub clear_pin : String → ℕ → Account → Option Account
clear_pin expected_node_id now a =
    let current = strip a.pinned_proxy_node_id in
    if not (str_eq expected_node_id "") && not (str_eq current expected_node_id)
      || str_eq current ""
    then none
    else some (record a { pinned_proxy_node_id = ""; updated_at = now })

unfoldable pub clear_account_pinned_proxy_node :
    (account_id expected_node_id : String) → ℕ → List Account → List Account
clear_account_pinned_proxy_node account_id expected_node_id now accounts =
    let cleared =
      or_same (update_account account_id (clear_pin expected_node_id now) accounts) accounts in
    if str_eq account_id "" then accounts else cleared
