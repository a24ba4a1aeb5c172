-- ===== src/Accounts/Give.antt =====
-- app/accounts.py: one account with a charge that is refunded or settled, in either ledger.
use api.Base.{ℕ, true, false, none, some, String, ◌≡◌, refl, ap}
use api.Accounts.Ledger.{Ledger, refund_ledger, settle_ledger}
use api.Accounts.Account.{Account}
use api.Accounts.Select.{Request, studio_quota}
use api.Accounts.Claim.{take_account}
use api.Accounts.Quota.{is_studio_charge, refund_account, settle_account}
use api.Accounts.Refund.{new_charge, with_last, add_charge-last}

abbrev pub with_studio : Account → ℕ → Ledger → Account
with_studio a now l = record a { studio = l; updated_at = now }

abbrev pub with_quota : Account → ℕ → Ledger → Account
with_quota a now l = record a { quota = l; updated_at = now }

module _ (charge : String) (now : ℕ) (a : Account) (l : Ledger) where
  pub refund-studio :
      is_studio_charge charge ≡ true
      → a.studio.initialized ≡ true
      → refund_ledger charge now a.studio ≡ (true, l)
      → refund_account charge now a ≡ some (with_studio a now l)
  unfolding refund_account
  refund-studio s i e = rw (s, e, i) refl

  pub refund-studio_refused :
      is_studio_charge charge ≡ true
      → a.studio.initialized ≡ true
      → refund_ledger charge now a.studio ≡ (false, l)
      → refund_account charge now a ≡ none
  unfolding refund_account
  refund-studio_refused s i e = rw (s, e, i) refl

  pub refund-quota :
      is_studio_charge charge ≡ false
      → a.quota.initialized ≡ true
      → refund_ledger charge now a.quota ≡ (true, l)
      → refund_account charge now a ≡ some (with_quota a now l)
  unfolding refund_account
  refund-quota s i e = rw (s, e, i) refl

  pub refund-quota_refused :
      is_studio_charge charge ≡ false
      → a.quota.initialized ≡ true
      → refund_ledger charge now a.quota ≡ (false, l)
      → refund_account charge now a ≡ none
  unfolding refund_account
  refund-quota_refused s i e = rw (s, e, i) refl

  pub settle-studio :
      is_studio_charge charge ≡ true
      → settle_ledger charge now a.studio ≡ (true, l)
      → settle_account charge now a ≡ some (with_studio a now l)
  unfolding settle_account
  settle-studio s e = rw (s, e) refl

  pub settle-studio_refused :
      is_studio_charge charge ≡ true
      → settle_ledger charge now a.studio ≡ (false, l)
      → settle_account charge now a ≡ none
  unfolding settle_account
  settle-studio_refused s e = rw (s, e) refl

  pub settle-quota :
      is_studio_charge charge ≡ false
      → settle_ledger charge now a.quota ≡ (true, l)
      → settle_account charge now a ≡ some (with_quota a now l)
  unfolding settle_account
  settle-quota s e = rw (s, e) refl

  pub settle-quota_refused :
      is_studio_charge charge ≡ false
      → settle_ledger charge now a.quota ≡ (false, l)
      → settle_account charge now a ≡ none
  unfolding settle_account
  settle-quota_refused s e = rw (s, e) refl

module _ (r : Request) (worker task charge : String) (now later : ℕ) (a : Account) where
  -- What the claim leaves besides the ledger.
  abbrev pub taken : Account
  taken = record a {
    last_used_worker_id = worker;
    last_used_at = now;
    current_task_id = task;
    current_worker_id = worker;
    current_started_at = now;
    current_quota_charge_id = charge;
    updated_at = now;
  }

  pub take-studio :
      studio_quota r ≡ true
      → take_account r worker task charge now a
        ≡ record (taken) { studio = with_last a.studio (new_charge charge task r.quota_cost now) }
  unfolding take_account
  take-studio s = rw s (
      ap (λ l. record (taken) { studio = l })
        (add_charge-last charge task r.quota_cost now a.studio))

  pub take-quota :
      studio_quota r ≡ false
      → take_account r worker task charge now a
        ≡ record (taken) { quota = with_last a.quota (new_charge charge task r.quota_cost now) }
  unfolding take_account
  take-quota s = rw s (
      ap (λ l. record (taken) { quota = l }) (add_charge-last charge task r.quota_cost now a.quota))
