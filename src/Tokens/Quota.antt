-- ===== src/Tokens/Quota.antt =====
-- app/temp_access.py, the quota of tasks: reserving before a task is created, refunding after it
-- failed, with the ledger entry of a refund. The tokens are kept in the file, and each function
-- returns them as they stand after the call, also after an exception.
use Prim.Native.String.{◌++◌ as str_append}
use api.Base.{
  ℕ, ◌+◌, ◌-◌, ◌/◌, max, Bool, true, false, ◌&&◌, ◌||◌, not, Option, none, some, List, [], ◌∷◌,
  ◌++◌, String, str_eq, ltb, leb, ◌==◌, if◌then◌else◌,
}
use api.Base.Int.{pos}
use api.Base.Dict.{Dict, lookup, insert}
use api.Base.Result.{Result, ok, err}
use api.Billing.{point_scale}
use api.Ledger.{Transaction, record_transaction, last_n}
use api.Tokens.Entry.{
  Priority, video_first, points_first, reserved, refunded, Reservation, Entry, AccessContext,
  or_default, entry_video_quota_units, set_entry_video_quota_units, sync_legacy_fields,
  migrate_entry, prune_reservations, get_temp_context_from_entry,
}

-- `QuotaExceeded`, by its three messages.
pub data QuotaExceeded : Type 0 where
  token_is_invalid reservation_is_closed quota_exhausted : QuotaExceeded

abbrev pub Tokens : Type 0
Tokens = Dict Entry

abbrev is_points_first : Priority → Bool
is_points_first video_first = false
is_points_first points_first = true

-- `free_used`: whether the video quota pays.
unfoldable pub free_used : Entry → ℕ → ℕ → Bool
unfolding entry_video_quota_units
free_used entry required_units required_video_units =
    leb required_video_units (entry_video_quota_units entry)
    && not (is_points_first entry.billing_priority && leb required_units entry.credit_units)

unfoldable pub add_reservation : String → Reservation → Entry → Entry
add_reservation task_id r entry =
    if str_eq task_id ""
    then entry
    else record entry { reservations = insert task_id r entry.reservations }

-- The last three lines of every change to the reservations.
unfoldable pub finish : ℕ → Entry → Entry
finish now entry = record (sync_legacy_fields (prune_reservations entry 1000)) { updated_at = now }

-- The pocket that pays is lowered by its price.
unfoldable pub charged_entry : Bool → ℕ → ℕ → Entry → Entry
unfolding set_entry_video_quota_units entry_video_quota_units
charged_entry free units video_units entry =
    if free
    then set_entry_video_quota_units entry (entry_video_quota_units entry - video_units)
    else record entry { credit_units = entry.credit_units - units }

unfoldable pub new_reservation : String → ℕ → Bool → ℕ → ℕ → Reservation
new_reservation user_id now free units video_units = record {
  status = reserved;
  free = free;
  units = if free then 0 else units;
  video_units = if free then video_units else 0;
  user_id = user_id;
  created_at = now;
  refunded_at = 0;
}

-- What `reserve_temp_quota` does to the entry once it knows who pays.
unfoldable pub charge : String → String → ℕ → Bool → ℕ → ℕ → Entry → Entry
charge task_id user_id now free units video_units entry =
    let reservation = new_reservation user_id now free units video_units in
    finish now (add_reservation task_id reservation (charged_entry free units video_units entry))

-- The part of `mutate` behind the look at an earlier reservation.
unfoldable pub reserve_entry : String → ℕ → String → ℕ → ℕ → Entry → Result QuotaExceeded Entry
reserve_entry task_id cost_units user_id video_cost_units now entry =
    let required_units = max 1 cost_units in
    let required_video_units = max 1 video_cost_units in
    let free = free_used entry required_units required_video_units in
    if not free && ltb entry.credit_units required_units
    then err quota_exhausted
    else ok (charge task_id user_id now free required_units required_video_units entry)

-- `reservations.get(task_id)`, which is asked only for a named task.
unfoldable pub find_reservation : String → Entry → Option Reservation
find_reservation task_id entry =
    if str_eq task_id "" then none else lookup task_id entry.reservations

-- An open reservation is returned as it is: nothing is written then, not even the migration.
unfoldable pub reserve_temp_quota :
    AccessContext
    → String
    → ℕ
    → String
    → ℕ
    → ℕ
    → Tokens
    → Result QuotaExceeded AccessContext × Tokens
reserve_temp_quota access task_id cost_units user_id video_cost_units now tokens =
    let result =
      elim (lookup access.token_hash tokens) as (λ _. Result QuotaExceeded AccessContext × Tokens) [
        | none ↦ (err token_is_invalid, tokens)
        | some stored ↦
            let entry = (migrate_entry stored (access.free_remaining / point_scale)).0 in
            elim (find_reservation task_id entry) [
              | some r ↦ elim (r.status) [
                | reserved ↦ (ok (get_temp_context_from_entry access.token_hash entry), tokens)
                | refunded ↦ (err reservation_is_closed, tokens)
              ]
              | none ↦ elim (reserve_entry task_id cost_units user_id video_cost_units now entry) [
                | err e ↦ (err e, tokens)
                | ok paid ↦ (
                  ok (get_temp_context_from_entry access.token_hash paid),
                  insert access.token_hash paid tokens,
                )
              ]
            ]
      ] in
    if access.is_temp then result else (ok access, tokens)

-- `refunded_transaction`.
pub record Refund : Type 0 where
  pub user_id : String
  pub units : ℕ
  pub balance_units : ℕ
  pub video_quota_change : ℕ
  pub video_quota_balance : ℕ

abbrev pub no_refund : Refund
no_refund = record {
  user_id = "";
  units = 0;
  balance_units = 0;
  video_quota_change = 0;
  video_quota_balance = 0;
}

unfoldable pub give_back : Reservation → Entry → Entry × Refund
unfolding set_entry_video_quota_units entry_video_quota_units
give_back r entry =
    if r.free
    then (let video_units = or_default r.video_units point_scale in
        let balance = entry_video_quota_units entry + max 1 video_units in
        (
          set_entry_video_quota_units entry balance,
          record {
            user_id = r.user_id;
            units = 0;
            balance_units = entry.credit_units;
            video_quota_change = max 1 video_units;
            video_quota_balance = balance;
          },
        ))
    else (
      record entry { credit_units = entry.credit_units + r.units },
      record {
        user_id = r.user_id;
        units = r.units;
        balance_units = entry.credit_units + r.units;
        video_quota_change = 0;
        video_quota_balance = entry_video_quota_units entry;
      },
    )

unfoldable pub close_reservation : String → ℕ → Reservation → Entry → Entry × Refund
close_reservation refund_id now r entry =
    let (returned, refund) = give_back r entry in
    let closed : Reservation = record r { status = refunded; refunded_at = now } in
    (finish now (add_reservation refund_id closed returned), refund)

unfoldable pub mem_string : String → List String → Bool
mem_string s [] = false
mem_string s (t ∷ rest) = if str_eq t s then true else mem_string s rest

-- The branch for an entry that has no reservations.
unfoldable pub refund_use : String → ℕ → Entry → Option (Entry × Refund)
unfolding mem_string
refund_use refund_id now entry =
    let ids =
      if str_eq refund_id ""
      then entry.quota_refund_ids
      else last_n 1000 (entry.quota_refund_ids ++ refund_id ∷ []) in
    if not (str_eq refund_id "") && mem_string refund_id entry.quota_refund_ids
    then none
    else some (
      record entry { used = entry.used - 1; quota_refund_ids = ids; updated_at = now },
      no_refund,
    )

-- `none` where the source returns False.
unfoldable pub refund_entry : String → ℕ → Entry → Option (Entry × Refund)
refund_entry refund_id now entry =
    let by_reservation =
      elim (lookup refund_id entry.reservations) as (λ _. Option (Entry × Refund)) [
        | none ↦ none
        | some r ↦ elim (r.status) [
          | refunded ↦ none
          | reserved ↦ some (close_reservation refund_id now r entry)
        ]
      ] in
    if leb 2 entry.billing_version && not (str_eq refund_id "")
    then by_reservation
    else refund_use refund_id now entry

pub record World : Type 0 where
  pub tokens : Tokens
  pub transactions : List Transaction

unfoldable pub refund_transaction : String → Refund → Transaction
refund_transaction refund_id refund = record {
  id = "";
  user_id = refund.user_id;
  kind = if refund.video_quota_change == 0 then "refund" else "video_quota_refund";
  amount_units = pos refund.units;
  balance_units = some (pos refund.balance_units);
  video_quota_change = pos refund.video_quota_change;
  video_quota_balance = some refund.video_quota_balance;
  title = if refund.video_quota_change == 0 then "任务退款" else "视频额度任务退款";
  detail = if str_eq refund_id "" then "" else str_append "任务 ID：" refund_id;
  reference_id = refund_id;
  visible_to_client = true;
  created_at = 0;
}

-- Nothing is recorded without a user or without an amount.
unfoldable pub record_reservation_refund :
    String → ℕ → Refund → String → List Transaction → List Transaction
unfolding refund_transaction
record_reservation_refund fresh_id now refund refund_id ledger =
    if str_eq refund.user_id "" || refund.units == 0 && refund.video_quota_change == 0
    then ledger
    else (record_transaction fresh_id now (refund_transaction refund_id refund) ledger).1

-- `normalize` is `str.strip().lower()`.
unfoldable pub refund_temp_quota_hash :
    (String → String) → String → String → String → ℕ → World → Bool × World
refund_temp_quota_hash normalize raw_hash refund_id fresh_id now w =
    let token_hash = normalize raw_hash in
    let refunded_world = elim (lookup token_hash w.tokens) as (λ _. Bool × World) [
      | none ↦ (false, w)
      | some entry ↦ elim (refund_entry refund_id now entry) [
        | none ↦ (false, w)
        | some (after, refund) ↦ (
          true,
          record {
            tokens = insert token_hash after w.tokens;
            transactions = record_reservation_refund fresh_id now refund refund_id w.transactions;
          },
        )
      ]
    ] in
    if str_eq token_hash "" then (false, w) else refunded_world
