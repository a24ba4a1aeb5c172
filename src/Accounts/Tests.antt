-- ===== src/Accounts/Tests.antt =====
-- app/accounts.py: accounts, a claim and calls on concrete values.
use api.Base.{true, false, some, List, [], ◌∷◌, String, ◌≡◌, refl, arith, inl, inr}
use api.Accounts.Ledger.{
  Ledger, Charge, charged, no_reason, quota_charges, active_units, reconciled_used,
}
use api.Accounts.Account.{Account, normal, from_admin, from_api}
use api.Accounts.Select.{Request, api_first, select_account}
use api.Accounts.Claim.{claim_account_for_worker}
use api.Accounts.Quota.{refund_account, settle_account}
use api.Accounts.Charges.{is_absent}
use api.Accounts.Event.{Timed, claim, refund, time_out, run}
use api.Accounts.InOrder.{AllInOrder}
use api.Accounts.Invariant.{run-AllInOrder}
use api.Accounts.Best.{Preferred, select_account-Preferred}
use api.Accounts.Repay.{ClosedBy, refund_claim, settle_claim}
use api.Accounts.Limit.{Holds, WithinLimit, claim-WithinLimit}

abbrev unused : Ledger
unused = record {
  limit = some 5;
  used = 0;
  base = 0;
  initialized = false;
  charges = [];
  exhausted_date = 0;
}

abbrev old_charge : Charge
old_charge = record {
  charge_id = "t0:aa";
  task_id = "t0";
  units = 2;
  status = charged;
  charged_at = 10;
  refunded_at = 0;
  refund_reason = no_reason;
  settled_at = 0;
  settle_reason = no_reason;
}

abbrev used_ledger : Ledger
used_ledger = record {
  limit = some 10;
  used = 3;
  base = 1;
  initialized = true;
  charges = old_charge ∷ [];
  exhausted_date = 0;
}

abbrev alice : Account
alice = record {
  id = "a";
  platform = "dola";
  account_source = from_admin;
  enabled = true;
  account_status = normal;
  ten_second_only = false;
  cookies = ("sid", "1") ∷ [];
  cooldown_until = 0;
  cooldown_reason = "";
  pinned_proxy_node_id = "";
  current_task_id = "";
  current_worker_id = "";
  current_started_at = 0;
  current_quota_charge_id = "";
  last_used_worker_id = "";
  last_used_at = 7;
  quota = used_ledger;
  studio = unused;
  quota_refund_ids = [];
  quota_reset_date = 1;
  studio_reset_date = 0;
  credit_sync_date = 0;
  credit_synced_at = 0;
  credit_available_at_sync = 0;
  credit_used_at_sync = 0;
  credit_sign_in = 0;
  updated_at = 7;
}

abbrev bob : Account
bob = record alice { id = "b"; account_source = from_api; quota = unused }

abbrev accounts : List Account
accounts = alice ∷ bob ∷ []

abbrev same : String → String
same s = s

abbrev request : Request
request = record {
  exclude_ids = [];
  platform = "dola";
  preferred_id = "";
  quota_cost = 2;
  duration = 10;
  selection_mode = api_first;
  studio_bucket = false;
  draw = 0;
}

accounts-AllInOrder : AllInOrder accounts
unfolding reconciled_used quota_charges active_units
accounts-AllInOrder =
    ((inr (refl, refl), inl (refl, refl)), ((inl (refl, refl), inl (refl, refl)), tt))

abbrev events : List Timed
events =
    record { event = claim request "w" "t1" "t1:bb"; today = 1; now = 20 }
    ∷ record { event = refund "b" "t1:bb"; today = 1; now = 30 }
    ∷ record { event = time_out "a" "t0:aa"; today = 1; now = 40 }
    ∷ []

run-AllInOrder_example : AllInOrder (run same events accounts)
run-AllInOrder_example =
    run-AllInOrder same events accounts (tt, (tt, (refl, tt))) accounts-AllInOrder

select_account-Preferred_example :
    Preferred request 1 same 20 (select_account same 1 20 request accounts) accounts
select_account-Preferred_example = select_account-Preferred request 1 same 20 accounts refl

claim-WithinLimit_example :
    Holds
      (WithinLimit request "w" "t1" "t1:bb" 20 1)
      (claim_account_for_worker same 1 20 request "w" "t1" "t1:bb" accounts).0
claim-WithinLimit_example =
    claim-WithinLimit request "w" "t1" "t1:bb" 20 1 same accounts accounts-AllInOrder refl
      (omega arith)

fresh : is_absent "t1:bb" used_ledger.charges ≡ true
unfolding is_absent
fresh = refl

refund_claim_example : ClosedBy request "w" "t1" "t1:bb" 20 30 40 alice refund_account 3
refund_claim_example =
    refund_claim request "w" "t1" "t1:bb" 20 30 40 alice accounts-AllInOrder.0.0 refl fresh refl

settle_claim_example : ClosedBy request "w" "t1" "t1:bb" 20 30 40 alice settle_account 5
settle_claim_example =
    settle_claim request "w" "t1" "t1:bb" 20 30 40 alice accounts-AllInOrder.0.0 refl fresh refl
