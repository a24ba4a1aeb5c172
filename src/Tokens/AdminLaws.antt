-- ===== src/Tokens/AdminLaws.antt =====
-- app/temp_access.py: what each change of a token does to its balances and open reservations, and
-- the ranges of what the program reads from an entry.
use api.Base.{max, ◌-◌, [], ◌⊎◌, ℕ, ◌+◌, ◌*◌, ◌≤◌, ◌<◌, ◌≡◌, refl, arith, false, String}
use api.Base.Int.{ℤ, pos, ◌+ℤ◌}
use api.Base.Result.{ok}
use api.Tokens.Entry.{
  or_default, Entry, AccessContext, entry_video_quota_units, set_entry_video_quota_units,
  sync_legacy_fields, migrate_entry, get_temp_context_from_entry,
}
use api.Tokens.Admin.{
  get_temp_context, update_entry, Update, deduct_entry, adjust_entry, purchase_entry, credit_entry,
}
use api.Tokens.Held.{held}
use api.Tokens.Refunds.{migrate_entry-current}

sync-held : (e : Entry) → held (sync_legacy_fields e) ≡ held e
unfolding held sync_legacy_fields
sync-held e = ground arith

sync_fields :
    (e : Entry)
    → ((sync_legacy_fields e).billing_version ≡ e.billing_version)
      × ((sync_legacy_fields e).concurrency ≡ e.concurrency)
unfolding sync_legacy_fields
sync_fields e = (refl, refl)

-- A successful deduction takes exactly its units from the points.
pub deduct_entry-held :
    (units free_limit now : ℕ) (e e' : Entry)
    → e.billing_version ≡ 3
    → deduct_entry units free_limit now e ≡ ok e'
    → (e'.billing_version ≡ 3) × ((held e').0 ≡ (held e).0) × ((held e').1 + units ≡ (held e).1)
unfolding deduct_entry held sync_legacy_fields
deduct_entry-held units free_limit now e e' version done =
    ground (arith, migrate_entry-current e free_limit version)

pub credit_entry-held :
    (units now : ℕ) (e e' : Entry)
    → e.billing_version ≡ 3
    → credit_entry units now e ≡ ok e'
    → (e'.billing_version ≡ 3) × ((held e').0 ≡ (held e).0) × ((held e').1 ≡ (held e).1 + units)
unfolding credit_entry held sync_legacy_fields
credit_entry-held units now e e' version done = ground (arith, migrate_entry-current e 0 version)

pub purchase_entry-held :
    (units bonus concurrency free_limit now : ℕ) (e e' : Entry)
    → e.billing_version ≡ 3
    → purchase_entry units bonus concurrency free_limit now e ≡ ok e'
    → (e'.billing_version ≡ 3)
      × ((held e').0 ≡ (held e).0 + bonus * 10)
      × ((held e').1 + units ≡ (held e).1)
unfolding purchase_entry held sync_legacy_fields
purchase_entry-held units bonus concurrency free_limit now e e' version done =
    ground (arith, migrate_entry-current e free_limit version)

pub adjust_entry-held :
    (change : ℤ) (free_limit now : ℕ) (e e' : Entry)
    → e.billing_version ≡ 3
    → adjust_entry change free_limit now e ≡ ok e'
    → (e'.billing_version ≡ 3)
      × (pos (held e).0 +ℤ change ≡ pos (held e').0)
      × ((held e').1 ≡ (held e).1)
unfolding adjust_entry held sync_legacy_fields set_entry_video_quota_units ◌+ℤ◌
adjust_entry-held change free_limit now e e' version done =
    ground (arith, migrate_entry-current e free_limit version)

pub update_entry-held :
    (u : Update) (now : ℕ) (e : Entry)
    → ((update_entry u now e).billing_version ≡ e.billing_version)
      × (held (update_entry u now e) ≡ held e)
unfolding update_entry held entry_video_quota_units
update_entry-held u now e = (refl, refl)

-- The migration from version 0 or 1 keeps what was left of the old limit: the video quota and the
-- points together are the unused part of it, at one use to ten units, and nothing is open.
pub migrate_entry-total :
    (e : Entry) (free_limit : ℕ)
    → e.billing_version < 2
    → let m = (migrate_entry e free_limit).0 in
      (entry_video_quota_units m + m.credit_units
        ≡ (max free_limit (or_default e.limit free_limit) - e.used) * 10)
      × (m.reservations ≡ [])
      × (m.billing_version ≡ 3)
unfolding migrate_entry
migrate_entry-total e free_limit old = ground arith

-- Migrating again changes nothing, whatever limit is passed.
pub migrate_entry_twice :
    (e : Entry) (free_limit other : ℕ)
    → let m = (migrate_entry e free_limit).0 in migrate_entry m other ≡ (m, false)
unfolding migrate_entry
migrate_entry_twice e free_limit other = ground arith

abbrev pub InRange : AccessContext → Type 0
InRange c =
    (1 ≤ c.concurrency)
    × (c.concurrency ≤ 100)
    × (1 ≤ c.remote_generation_limit)
    × (c.remote_generation_limit ≤ 999)
    × (1 ≤ c.task_retention_days)
    × (c.task_retention_days ≤ 15)

-- Whatever an entry holds, the limits that requests are checked against lie in their ranges.
pub context-InRange :
    (h : String) (e : Entry)
    → InRange (get_temp_context h e) × InRange (get_temp_context_from_entry h e)
unfolding get_temp_context get_temp_context_from_entry
context-InRange h e = ground arith

-- The two ways to read a token's remaining uses agree once the balances are written back, except
-- that a token with nothing left is shown with 100 by `get_temp_context` and with 0 by the other.
pub get_temp_context-remaining :
    (h : String) (e : Entry)
    → let s = sync_legacy_fields e in
      let read = (get_temp_context h s).remaining in
      let kept = (get_temp_context_from_entry h s).remaining in
      (0 < entry_video_quota_units e + e.credit_units) × (read ≡ kept)
      ⊎ (entry_video_quota_units e + e.credit_units ≡ 0) × (read ≡ 100) × (kept ≡ 0)
unfolding get_temp_context get_temp_context_from_entry sync_legacy_fields
get_temp_context-remaining h e = ground arith
