-- ===== src/Accounts/Preference.antt =====
-- app/accounts.py, `_select_account`: which account may have a task and which one it prefers, written
-- out by themselves.
pub mod Laws
use api.Base.{
  ℕ, ◌+◌, ◌-◌, ◌<◌, ◌≤◌, Bool, true, false, Option, none, some, List, [], ◌∷◌, String, str_eq, ◌≡◌,
  ◌≢◌, ◌⊎◌, if◌then◌else◌, length, ◌==◌, ◌&&◌,
}
use api.Base.Text.{strip}
use api.Tasks.Update.{mem_string}
use api.Accounts.Ledger.{reconciled_used, default_studio_limit}
use api.Accounts.Account.{Account, Source, normal, from_admin, from_api}
use api.Accounts.Select.{Mode, Request, admin_first}

-- The limit of a ledger, with what counts where none is stored.
abbrev pub limit_else : ℕ → Option ℕ → ℕ
limit_else default none = default
limit_else default (some n) = n

-- There is no limit, or the cost fits under it.
abbrev pub HasRoom : (cost limit used : ℕ) → Type 0
HasRoom cost limit used = (limit ≡ 0) ⊎ (used + cost ≤ limit)

-- What was left of the credit when it was reported, less what has been used since.
abbrev pub reported_left : Account → ℕ
reported_left a = a.credit_available_at_sync - (reconciled_used a.studio - a.credit_used_at_sync)

abbrev pub IsTicket : (String → String) → String × String → Type 0
IsTicket unescape (name, value) =
    (str_eq (unescape name) "tongyi_sso_ticket" ≡ true) × (str_eq (strip value) "" ≡ false)

abbrev pub HasTicket : (String → String) → List (String × String) → Type 0
HasTicket unescape [] = ⊥
HasTicket unescape (cookie ∷ cookies) = IsTicket unescape cookie ⊎ HasTicket unescape cookies

-- The favoured, then more left, then less used, then the earlier last use.
abbrev pub Earlier : Bool → (left used last : ℕ) → Bool → (left1 used1 last1 : ℕ) → Type 0
Earlier source left used last source1 left1 used1 last1 =
    (source ≡ true) × (source1 ≡ false)
    ⊎ (source ≡ source1)
      × ((left1 < left) ⊎ (left ≡ left1) × ((used < used1) ⊎ (used ≡ used1) × (last < last1)))

module _ (unescape : String → String) (today now : ℕ) (r : Request) where
  -- The task draws on the studio's quota, or on the default one.
  abbrev pub IsStudio : Type 0
  IsStudio = (str_eq r.platform "qianwen" ≡ true) × (r.studio_bucket ≡ true)

  abbrev pub IsPlain : Type 0
  IsPlain = (str_eq r.platform "qianwen" ≡ false) ⊎ (r.studio_bucket ≡ false)

  -- An account of dola that makes ten seconds only is for a task of a known duration of at most ten.
  abbrev pub Lasts : Account → Type 0
  Lasts a =
      (str_eq r.platform "dola" ≡ false)
      ⊎ (a.ten_second_only ≡ false)
      ⊎ (0 < r.duration) × (r.duration ≤ 10)

  -- The studio's quota goes by the credit that was reported today, and else by its limit.
  abbrev pub StudioLeft : Account → Type 0
  StudioLeft a =
      (a.credit_sync_date ≡ today) × (r.quota_cost ≤ reported_left a)
      ⊎ (a.credit_sync_date ≢ today)
        × HasRoom r.quota_cost (limit_else default_studio_limit a.studio.limit) a.studio.used

  -- The studio asks for a ticket; neither quota may have been exhausted today.
  abbrev pub Pays : Account → Type 0
  Pays a =
      IsStudio × HasTicket unescape a.cookies × (a.studio.exhausted_date ≢ today) × StudioLeft a
      ⊎ IsPlain
        × (a.quota.exhausted_date ≢ today)
        × HasRoom r.quota_cost (limit_else 0 a.quota.limit) a.quota.used

  -- What an account must be like to have the task.
  abbrev pub MayHave : Account → Type 0
  MayHave a =
      (a.enabled ≡ true)
      × (a.account_status ≡ normal)
      × (str_eq a.platform r.platform ≡ true)
      × Lasts a
      × (mem_string a.id r.exclude_ids ≡ false)
      × ((str_eq r.preferred_id "" ≡ true) ⊎ (str_eq a.id r.preferred_id ≡ true))
      × (str_eq a.current_task_id "" ≡ true)
      × (0 < length a.cookies)
      × (a.cooldown_until ≤ now)
      × Pays a

  -- The source that a mode names comes first.
  abbrev pub favours : Mode → Source → Bool
  favours admin_first from_admin = true
  favours admin_first from_api = false
  favours _ from_admin = false
  favours _ from_api = true

  -- What is left, where no limit counts as a million.
  abbrev pub room_left : (limit used : ℕ) → ℕ
  room_left limit used = if limit == 0 then 1000000 else limit - used

  abbrev pub left_of : Account → ℕ
  left_of a =
      if str_eq r.platform "qianwen" && r.studio_bucket
      then if a.credit_sync_date == today
        then reported_left a
        else room_left (limit_else default_studio_limit a.studio.limit) a.studio.used
      else room_left (limit_else 0 a.quota.limit) a.quota.used

  abbrev pub used_of : Account → ℕ
  used_of a = if str_eq r.platform "qianwen" && r.studio_bucket then a.studio.used else a.quota.used

  -- The favoured source, then more quota left, then less used, then the earlier last use.
  abbrev pub Precedes : Account → Account → Type 0
  Precedes a b =
      Earlier (favours r.selection_mode a.account_source) (left_of a) (used_of a) a.last_used_at
        (favours r.selection_mode b.account_source) (left_of b) (used_of b) b.last_used_at
