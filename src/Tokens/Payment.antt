-- ===== src/Tokens/Payment.antt =====
-- app/temp_access.py, one entry: who pays for a task.
use api.Base.{
  Bool, ℕ, ◌-◌, max, ◌≡◌, ◌∙◌, arith, Option, none, some, String, true, false, leb, if◌then◌else◌,
}
use api.Base.Result.{Result, ok, err}
use api.Tokens.Entry.{
  Priority, video_first, points_first, Reservation, Entry, entry_video_quota_units,
  sync_legacy_fields, prune_reservations,
}
use api.Tokens.Quota.{
  QuotaExceeded, charge, add_reservation, charged_entry, new_reservation, finish, free_used,
  reserve_entry,
}
use api.Tokens.Reservations.{prune_fields}

-- Video quota and points.
abbrev pub balances : Entry → ℕ × ℕ
balances e = (entry_video_quota_units e, e.credit_units)

-- Who pays, as a table: the preferred pocket if it covers its price, else the other one.
abbrev pub settle : Priority → ℕ → ℕ → ℕ × ℕ → Option (ℕ × ℕ)
settle video_first cost video_cost (video, credit) =
    if leb video_cost video
    then some (video - video_cost, credit)
    else if leb cost credit
    then some (video, credit - cost)
    else none
settle points_first cost video_cost (video, credit) =
    if leb cost credit
    then some (video, credit - cost)
    else if leb video_cost video
    then some (video - video_cost, credit)
    else none

abbrev pub paid_balances : Result QuotaExceeded Entry → Option (ℕ × ℕ)
paid_balances (ok e) = some (balances e)
paid_balances (err _) = none

pub finish_fields :
    (now : ℕ) (e : Entry)
    → (balances (finish now e) ≡ balances e)
      × ((finish now e).billing_version ≡ e.billing_version)
      × ((finish now e).reservations ≡ (prune_reservations e 1000).reservations)
unfolding finish sync_legacy_fields
finish_fields now e = ground (arith, prune_fields e 1000)

pub add_reservation-balances :
    (t : String) (r : Reservation) (e : Entry) → balances (add_reservation t r e) ≡ balances e
unfolding add_reservation entry_video_quota_units
add_reservation-balances t r e = ground arith

charged_entry-balances :
    (free : Bool) (c v : ℕ) (e : Entry)
    → balances (charged_entry free c v e) ≡ (
        if free
        then (entry_video_quota_units e - v, e.credit_units)
        else (entry_video_quota_units e, e.credit_units - c))
unfolding charged_entry
charged_entry-balances free c v e = ground arith

pub charge-balances :
    (t u : String) (now : ℕ) (free : Bool) (c v : ℕ) (e : Entry)
    → balances (charge t u now free c v e) ≡ balances (charged_entry free c v e)
unfolding charge
charge-balances t u now free c v e =
    (finish_fields now _).0 ∙ add_reservation-balances t (new_reservation u now free c v) _

-- A task is paid for from exactly one pocket, in the order that the priority says, at no less than
-- one unit; it is refused exactly when neither pocket covers its price.
pub reserve_entry-settle :
    (t : String) (c : ℕ) (u : String) (v now : ℕ) (e : Entry)
    → paid_balances (reserve_entry t c u v now e)
      ≡ settle e.billing_priority (max 1 c) (max 1 v) (balances e)
unfolding reserve_entry free_used
reserve_entry-settle t c u v now e = ground (
  arith,
  charge-balances t u now true (max 1 c) (max 1 v) e,
  charge-balances t u now false (max 1 c) (max 1 v) e,
  charged_entry-balances true (max 1 c) (max 1 v) e,
  charged_entry-balances false (max 1 c) (max 1 v) e,
)
