-- ===== src/Memberships/Tests.antt =====
-- app/users.py: memberships that take turns, and instances of the theorems.
use api.Base.{ℕ, true, none, some, [], ◌∷◌, ◌≡◌, refl, arith, ◌≤◌}
use api.Memberships.State.{
  Membership, UserMemberships, active, paused, membership_remaining_seconds, first_active,
  sync_memberships, sync_loop, choose, highest, is_eligible, is_above, pause_others,
  sync_membership_state, stored_records, normalize_membership_record,
}
use api.Memberships.View.{count_active}
use api.Base.Result.{Result, ok, err}
use api.Tokens.Entry.{Entry, video_first, migrate_entry}
use api.Tokens.Admin.{purchase_entry, update_entry}
use api.Memberships.Purchase.{
  Package, User, Refusal, purchase_user_membership, synced_purchase, allowed_purchase, has_free,
  paid_purchase, finish_purchase, refusal, owns, highest_price, eligible_memberships, bought,
  reconcile_membership_concurrency,
}
use api.Memberships.Bought.{Bought, purchase_user_membership-Bought}
use api.Memberships.Sync.{Led}
use api.Memberships.Entry.{Shown, sync_membership_state_ends, sync_membership_state-Led}

-- Bought at 100 and running since then.
abbrev small : Membership
small = record {
  id = "m1";
  package_id = "p1";
  name = "small";
  cost_units = 100;
  duration_days = 1;
  remaining_seconds = 86400;
  status = active;
  activated_at = 100;
  purchased_at = 100;
  concurrency = 2;
  bonus_free_uses = 0;
  task_discount_units = 1;
}

-- Bought at 1100.
abbrev large : Membership
large = record small {
  id = "m2";
  package_id = "p2";
  name = "large";
  cost_units = 300;
  status = paused;
  activated_at = 0;
  purchased_at = 1100;
}

abbrev entry : UserMemberships
entry = record { memberships = small ∷ large ∷ []; membership = none }

unfoldable program : Unit {0}
unfolding sync_memberships sync_loop choose highest is_eligible is_above pause_others
    membership_remaining_seconds first_active count_active sync_membership_state stored_records
    normalize_membership_record
program = tt

-- The dearer one takes over, and the other keeps what it has left.
hand_over :
    sync_memberships 1100 entry.memberships
    ≡ some (
        record small { status = paused; remaining_seconds = 85400; activated_at = 0 }
        ∷ record large { status = active; activated_at = 1100 }
        ∷ [])
unfolding program
hand_over = refl

one_active : count_active (stored_records 1100 entry) ≤ 1
unfolding program
one_active = omega arith

sync_membership_state_ends_example :
    (after : UserMemberships) × (sync_membership_state 1100 entry ≡ some after) × Shown 1100 after
sync_membership_state_ends_example = sync_membership_state_ends 1100 entry

sync_membership_state-Led_example :
    (after : UserMemberships) × (sync_membership_state 1100 entry ≡ some after)
    × Led 1100 (stored_records 1100 entry) after.memberships
sync_membership_state-Led_example = sync_membership_state-Led 1100 entry one_active

abbrev large_package : Package
large_package = record {
  id = "p2";
  name = "large";
  cost_units = 300;
  duration_days = 1;
  concurrency = 4;
  bonus_free_uses = 1;
  task_discount_units = 1;
}

abbrev token : Entry
token = record {
  token = "tmp_a";
  limit = 50;
  used = 0;
  concurrency = 1;
  remote_generation_limit = 0;
  task_retention_days = 7;
  remark = "";
  free_remaining = 0;
  video_quota_units = some 0;
  credit_units = 500;
  billing_priority = video_first;
  billing_version = 3;
  reservations = [];
  quota_refund_ids = [];
  created_at = 1;
  updated_at = 1;
}

abbrev user : User
user = record {
  memberships = record { memberships = small ∷ []; membership = none };
  migrated = true;
  base_concurrency = 1;
  effective_concurrency = 2;
  updated_at = 1;
}

abbrev purchased : Result Refusal (Entry × User)
purchased = purchase_user_membership [] (large_package ∷ []) "m2" 1 1100 large_package token user

purchase_user_membership-Bought_example : Bought [] "m2" 1100 large_package user purchased
purchase_user_membership-Bought_example =
    purchase_user_membership-Bought [] (large_package ∷ []) "m2" 1 1100 large_package user token

abbrev owned_after : Result Refusal (Entry × User) → ℕ × ℕ
owned_after (err e) = (0, 0)
owned_after (ok (paid, after)) = (paid.credit_units, after.effective_concurrency)

purchase_pays : owned_after purchased ≡ (200, 4)
unfolding program purchase_user_membership synced_purchase allowed_purchase paid_purchase
    finish_purchase refusal owns eligible_memberships bought reconcile_membership_concurrency
    purchase_entry highest_price has_free migrate_entry update_entry
purchase_pays = refl
