-- ===== src/Accounts/Select.antt =====
-- app/accounts.py, `_select_account`: which account a task or a maintenance gets. `now` is the
-- time, `today` the local date. The drawing of the random mode is a number given by the caller.
use api.Base.{
  ℕ, ◌+◌, ◌-◌, ◌%◌, Bool, true, false, ◌&&◌, ◌||◌, not, Option, none, some, List, [], ◌∷◌, String,
  str_eq, ltb, leb, ◌==◌, if◌then◌else◌, length, get_elem?,
}
use api.Base.Text.{strip}
use api.Tasks.Update.{mem_string}
use api.Accounts.Ledger.{Ledger, reconciled_used, default_studio_limit}
use api.Accounts.Account.{Account, AccountStatus, normal, from_admin, from_api}

pub data Mode : Type 0 where
  api_first admin_first random : Mode

-- The arguments of a selection.
pub record Request : Type 0 where
  pub exclude_ids : List String
  pub platform : String
  pub preferred_id : String
  pub quota_cost : ℕ
  pub duration : ℕ
  pub selection_mode : Mode
  pub studio_bucket : Bool
  pub draw : ℕ

abbrev pub studio_quota : Request → Bool
studio_quota r = str_eq r.platform "qianwen" && r.studio_bucket

abbrev pub ledger_of : Request → Account → Ledger
ledger_of r a = if studio_quota r then a.studio else a.quota

abbrev is_normal : AccountStatus → Bool
is_normal normal = true
is_normal _ = false

-- `_account_supports_duration`
unfoldable pub supports_duration : String → ℕ → Account → Bool
supports_duration platform duration a =
    not (str_eq platform "dola" && a.ten_second_only && (duration == 0 || ltb 10 duration))

-- `_studio_synced_quota_remaining`
unfoldable pub synced_remaining : ℕ → Account → Option ℕ
synced_remaining today a =
    if a.credit_sync_date == today
    then some (a.credit_available_at_sync - (reconciled_used a.studio - a.credit_used_at_sync))
    else none

-- `_account_has_qianwen_ai_studio_ticket`; `unescape` replaces an escaped underscore.
unfoldable pub has_studio_ticket : (String → String) → List (String × String) → Bool
has_studio_ticket unescape [] = false
has_studio_ticket unescape ((name, value) ∷ cookies) =
    str_eq (unescape name) "tongyi_sso_ticket" && not (str_eq (strip value) "")
    || has_studio_ticket unescape cookies

abbrev has_cookies : List (String × String) → Bool
has_cookies [] = false
has_cookies (c ∷ cookies) = true

-- A stored limit, with the default where none is stored; 0 is none.
abbrev pub limit_or : (studio : Bool) → Option ℕ → ℕ
limit_or studio none = if studio then default_studio_limit else 0
limit_or studio (some n) = n

-- The limit of the bucket.
abbrev pub limit_of : Request → Account → ℕ
limit_of r a = limit_or (studio_quota r) (ledger_of r a).limit

abbrev pub synced : Request → ℕ → Account → Option ℕ
synced r today a = if studio_quota r then synced_remaining today a else none

-- What the account has left, as the order of preference counts it.
abbrev pub quota_remaining : Request → ℕ → Account → ℕ
quota_remaining r today a = elim (synced r today a) as (λ _. ℕ) [
  | some n ↦ n
  | none ↦ if limit_of r a == 0 then 1000000 else limit_of r a - (ledger_of r a).used
]

unfoldable pub quota_available : Request → ℕ → Account → Bool
quota_available r today a = elim (synced r today a) as (λ _. Bool) [
  | some n ↦ leb r.quota_cost n
  | none ↦ limit_of r a == 0 || leb ((ledger_of r a).used + r.quota_cost) (limit_of r a)
]

module _ (unescape : String → String) (today now : ℕ) (r : Request) where
  -- The filter of `enabled_accounts`.
  unfoldable pub is_available : Account → Bool
  unfolding supports_duration
  is_available a =
      a.enabled
      && is_normal a.account_status
      && str_eq a.platform r.platform
      && supports_duration r.platform r.duration a
      && not (mem_string a.id r.exclude_ids)
      && (str_eq r.preferred_id "" || str_eq a.id r.preferred_id)
      && str_eq a.current_task_id ""
      && has_cookies a.cookies
      && (not (studio_quota r) || has_studio_ticket unescape a.cookies)
      && (a.cooldown_until == 0 || leb a.cooldown_until now)
      && not ((ledger_of r a).exhausted_date == today)
      && quota_available r today a

  unfoldable pub enabled_accounts : List Account → List Account
  unfolding is_available
  enabled_accounts [] = []
  enabled_accounts (a ∷ rest) =
      let later = enabled_accounts rest in if is_available a then a ∷ later else later

abbrev pub source_priority : Request → Account → ℕ
source_priority r a = elim (r.selection_mode) as (λ _. ℕ) [
  | admin_first ↦ elim (a.account_source) as (λ _. ℕ) [ from_admin ↦ 0 | from_api ↦ 1 ]
  | _ ↦ elim (a.account_source) as (λ _. ℕ) [ from_admin ↦ 1 | from_api ↦ 0 ]
]

-- The order of the tuples that `priority` gives, of which the second is negated.
unfoldable pub before : (source left used last source1 left1 used1 last1 : ℕ) → Bool
before source left used last source1 left1 used1 last1 =
    ltb source source1
    || source == source1
      && (ltb left1 left || left == left1 && (ltb used used1 || used == used1 && ltb last last1))

-- Whether `a` stands strictly before `b` in the order of the key `priority`.
unfoldable pub is_before : Request → ℕ → Account → Account → Bool
is_before r today a b =
    before (source_priority r a) (quota_remaining r today a) (ledger_of r a).used a.last_used_at
      (source_priority r b) (quota_remaining r today b) (ledger_of r b).used b.last_used_at

-- The stable sort by that key.
unfoldable pub insert_account : Request → ℕ → Account → List Account → List Account
unfolding is_before
insert_account r today a [] = a ∷ []
insert_account r today a (b ∷ rest) =
    let later = insert_account r today a rest in
    if is_before r today b a then b ∷ later else a ∷ b ∷ rest

unfoldable pub sort_accounts : Request → ℕ → List Account → List Account
unfolding insert_account
sort_accounts r today [] = []
sort_accounts r today (a ∷ rest) = insert_account r today a (sort_accounts r today rest)

abbrev pub first : List Account → Option Account
first [] = none
first (a ∷ rest) = some a

abbrev pub is_random : Mode → Bool
is_random random = true
is_random _ = false

-- The account itself, of which the source returns a copy.
unfoldable pub select_account :
    (String → String) → (today now : ℕ) → Request → List Account → Option Account
unfolding enabled_accounts sort_accounts
select_account unescape today now r accounts =
    let enabled = enabled_accounts unescape today now r accounts in
    if is_random r.selection_mode
    then get_elem? enabled (r.draw % length enabled)
    else first (sort_accounts r today enabled)
