-- ===== src/Tokens/Tests.antt =====
-- Small tokens, what app/temp_access.py does with them, and instances of the theorems.
use api.Base.{
  ℕ, ◌+◌, ◌*◌, ◌-◌, ◌<◌, ◌≡◌, refl, arith, true, false, [], ◌∷◌, some, none, eq_iff, max, ◌⊎◌,
}
use api.Base.Dict.{lookup, insert}
use api.Base.Int.{pos}
use api.Base.Text.{strip}
use api.Billing.{finite, points_to_units}
use api.Ledger.{record_transaction, normalize_transaction, find_transaction}
use api.Tokens.Entry.{
  video_first, Entry, AccessContext, entry_video_quota_units, get_temp_context_from_entry,
  prune_reservations, sync_legacy_fields, migrate_entry,
}
use api.Tokens.Quota.{
  Tokens, World, reserve_entry, reserve_temp_quota, free_used, charge, add_reservation,
  charged_entry, new_reservation, finish, find_reservation, refund_entry, refund_temp_quota_hash,
  close_reservation, give_back, record_reservation_refund, refund_use,
}
use api.Tokens.Payment.{paid_balances, settle, balances, reserve_entry-settle}
use api.Tokens.Refunds.{refund-reserve}
use api.Tokens.Once.{refund_once}
use api.Tokens.Admin.{
  mutate_token, add_temp_credit_units, credit_entry, deduct_temp_points, deduct_entry,
  get_temp_context,
}
use api.Tokens.AdminLaws.{migrate_entry-total, get_temp_context-remaining}
use api.Tokens.History.{reserve, refund, add_credit, deduct, calls, Holds}
use api.Tokens.Reservations.{open_total}
use api.Tokens.Held.{held}
use api.Tokens.Conservation.{calls-conserve}

-- 3 uses of video quota and 5 points.
abbrev entry : Entry
entry = record {
  token = "tmp_a";
  limit = 8;
  used = 0;
  concurrency = 1;
  remote_generation_limit = 0;
  task_retention_days = 7;
  remark = "";
  free_remaining = 30;
  video_quota_units = some 30;
  credit_units = 50;
  billing_priority = video_first;
  billing_version = 3;
  reservations = [];
  quota_refund_ids = [];
  created_at = 1;
  updated_at = 1;
}

abbrev access : AccessContext
access = record {
  token_hash = "a";
  is_admin = false;
  is_temp = true;
  limit = 8;
  used = 0;
  remaining = 8;
  concurrency = 1;
  remote_generation_limit = 1;
  task_retention_days = 7;
  free_remaining = 30;
  video_quota_units = 30;
  credit_units = 50;
  billing_priority = video_first;
}

abbrev world : World
world = record { tokens = ("a", entry) ∷ []; transactions = [] }

program : Unit {0}
unfolding reserve_temp_quota reserve_entry free_used charge add_reservation charged_entry
    new_reservation finish find_reservation refund_entry refund_temp_quota_hash close_reservation
    give_back refund_use record_reservation_refund record_transaction normalize_transaction
    find_transaction strip lookup insert prune_reservations sync_legacy_fields migrate_entry
    get_temp_context_from_entry mutate_token add_temp_credit_units credit_entry deduct_temp_points
    deduct_entry points_to_units get_temp_context
program = tt

-- The quota pays first; with 4 uses asked for, the points pay.
pays :
    (paid_balances (reserve_entry "t" 10 "u" 10 5 entry) ≡ some (20, 50))
    × (paid_balances (reserve_entry "t" 20 "u" 40 5 entry) ≡ some (30, 30))
    × (paid_balances (reserve_entry "t" 60 "u" 40 5 entry) ≡ none)
unfolding program
pays = (refl, refl, refl)

reserve_entry-settle_example :
    paid_balances (reserve_entry "t" 60 "u" 40 5 entry) ≡ settle video_first 60 40 (30, 50)
unfolding program
reserve_entry-settle_example = reserve_entry-settle "t" 60 "u" 40 5 entry

abbrev after_reserve : Tokens
after_reserve = (reserve_temp_quota access "t" 20 "u" 40 5 world.tokens).1

refund-reserve_example :
    let (done, w') =
      refund_temp_quota_hash (λ s. s) "a" "t" "id" 9 (record world { tokens = after_reserve }) in
    (done ≡ true)
    × (after : Entry) × (lookup "a" w'.tokens ≡ some after)
    × (balances after ≡ balances entry)
unfolding program
refund-reserve_example =
    refund-reserve (λ s. s) access "t" 20 "u" 40 5 9 "a" "id" world entry
      (get_temp_context_from_entry "a" (charge "t" "u" 5 false 20 40 entry)) after_reserve refl
      (ground (arith, eq_iff "a" "")) refl (ground (arith, eq_iff "t" "")) refl refl refl refl

abbrev charged : Entry
charged = charge "t" "u" 5 false 20 40 entry

abbrev charged_world : World
charged_world = record world { tokens = ("a", charged) ∷ [] }

refund_once_example :
    refund_temp_quota_hash
      (λ s. s)
      "a"
      "t"
      "id2"
      10
      (refund_temp_quota_hash (λ s. s) "a" "t" "id" 9 charged_world).1
    ≡ (false, (refund_temp_quota_hash (λ s. s) "a" "t" "id" 9 charged_world).1)
unfolding program
refund_once_example =
    refund_once (λ s. s) "a" "t" "id" "id2" 9 10 charged_world
      (refund_temp_quota_hash (λ s. s) "a" "t" "id" 9 charged_world).1 charged
      (ground (arith, eq_iff "t" "")) refl (refl, tt) refl

-- An entry of version 0: 100 uses, 30 of them used, 40 of them free.
abbrev old_entry : Entry
old_entry = record entry { limit = 100; used = 30; video_quota_units = none; billing_version = 0 }

migrate_entry-total_example :
    let m = (migrate_entry old_entry 40).0 in
    (entry_video_quota_units m + m.credit_units ≡ (max 40 100 - 30) * 10)
    × (m.reservations ≡ [])
    × (m.billing_version ≡ 3)
migrate_entry-total_example = migrate_entry-total old_entry 40 (omega arith)

get_temp_context-remaining_example :
    let s = sync_legacy_fields entry in
    let read = (get_temp_context "a" s).remaining in
    let kept = (get_temp_context_from_entry "a" s).remaining in
    (0 < 30 + 50) × (read ≡ kept) ⊎ (◌≡◌ {A = ℕ} (30 + 50) 0) × (read ≡ 100) × (kept ≡ 0)
unfolding program
get_temp_context-remaining_example = get_temp_context-remaining "a" entry

world-Holds : Holds (λ s. s) access world 30 50
unfolding program held open_total
world-Holds = record {
  entry = entry;
  stored = refl;
  current = refl;
  video_held = refl;
  credit_held = refl;
}

calls-conserve_example :
    let (w', flow) =
      calls
        (λ s. s)
        access
        (reserve "t" "u" 20 40 5
          ∷ add_credit 7 6
          ∷ deduct 0 (some (finite false 1 (pos 0))) 7
          ∷ refund "t" "id" 9
          ∷ [])
        world in
    (k' : ℕ) × Holds (λ s. s) access w' (30 + flow.video_in) k'
    × (k' + flow.credit_out ≡ 50 + flow.credit_in)
calls-conserve_example =
    calls-conserve (λ s. s) access
      (reserve "t" "u" 20 40 5
        ∷ add_credit 7 6
        ∷ deduct 0 (some (finite false 1 (pos 0))) 7
        ∷ refund "t" "id" 9
        ∷ [])
      world 30 50 refl refl
      (ground (arith, eq_iff "t" ""), (tt, (tt, (ground (arith, eq_iff "t" ""), tt)))) world-Holds
