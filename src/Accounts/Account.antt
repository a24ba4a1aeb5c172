-- ===== src/Accounts/Account.antt =====
-- app/accounts.py, one account. The platform is the normalized name; a cookie is its name and value.
use api.Base.{ℕ, Bool, List, String}
use api.Accounts.Ledger.{Ledger}

pub data AccountStatus : Type 0 where
  normal text_only region_restricted slider_verification abnormal : AccountStatus

pub data Source : Type 0 where
  from_admin from_api : Source

pub record Account : Type 0 where
  pub id : String
  pub platform : String
  pub account_source : Source
  pub enabled : Bool
  pub account_status : AccountStatus
  pub ten_second_only : Bool
  pub cookies : List (String × String)
  pub cooldown_until : ℕ
  pub cooldown_reason : String
  pub pinned_proxy_node_id : String
  pub current_task_id : String
  pub current_worker_id : String
  pub current_started_at : ℕ
  pub current_quota_charge_id : String
  pub last_used_worker_id : String
  pub last_used_at : ℕ
  pub quota : Ledger
  pub studio : Ledger
  pub quota_refund_ids : List String
  pub quota_reset_date : ℕ
  pub studio_reset_date : ℕ
  pub credit_sync_date : ℕ
  pub credit_synced_at : ℕ
  pub credit_available_at_sync : ℕ
  pub credit_used_at_sync : ℕ
  pub credit_sign_in : ℕ
  pub updated_at : ℕ
