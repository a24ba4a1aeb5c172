-- ===== src/Tokens/Held.antt =====
-- app/temp_access.py, one entry: what the balances and the open reservations hold together.
use api.Base.{
  Bool, ℕ, ◌+◌, ◌≤◌, max, ◌≡◌, ◌≢◌, ◌∙◌, ap, refl, arith, none, some, String, true, false,
  if◌then◌else◌, inl, inr, eq_iff, Option-cases,
}
use api.Base.Result.{ok}
use api.Base.Dict.{lookup}
use api.Tokens.Entry.{Reservation, reserved, refunded, Entry, or_default, entry_video_quota_units}
use api.Tokens.Quota.{
  charge, add_reservation, charged_entry, new_reservation, finish, free_used, reserve_entry,
  give_back, close_reservation, refund_entry, Refund,
}
use api.Tokens.Reservations.{open_total, open_total-prune, open_total-insert_new, open_total-insert}
use api.Tokens.Payment.{finish_fields}

-- What a refund of a reservation gives back, in points and in video quota.
unfoldable pub credit_value : Reservation → ℕ
credit_value r = if r.free then 0 else r.units

unfoldable pub video_value : Reservation → ℕ
video_value r = if r.free then max 1 (or_default r.video_units 10) else 0

-- The balances together with what open reservations hold.
unfoldable pub held : Entry → ℕ × ℕ
held e = (
  entry_video_quota_units e + open_total video_value e.reservations,
  e.credit_units + open_total credit_value e.reservations,
)

finish-held : (now : ℕ) (e : Entry) → held (finish now e) ≡ held e
unfolding held
finish-held now e = ground (
  arith,
  finish_fields now e,
  open_total-prune credit_value e 1000,
  open_total-prune video_value e 1000,
)

-- A new open reservation adds its value.
add_reservation-held :
    (t : String) (r : Reservation) (e : Entry)
    → t ≢ ""
    → lookup t e.reservations ≡ none
    → r.status ≡ reserved
    → held (add_reservation t r e) ≡ ((held e).0 + video_value r, (held e).1 + credit_value r)
unfolding held add_reservation entry_video_quota_units
add_reservation-held t r e named fresh o = ground (
  arith,
  eq_iff t "",
  open_total-insert_new credit_value t r e.reservations fresh,
  open_total-insert_new video_value t r e.reservations fresh,
)

charged_entry-held :
    (u : String) (now : ℕ) (free : Bool) (c v : ℕ) (e : Entry)
    → (if free then v else c) ≤ (if free then entry_video_quota_units e else e.credit_units)
    → 1 ≤ v
    → let r = new_reservation u now free c v in
      (
        (held (charged_entry free c v e)).0 + video_value r,
        (held (charged_entry free c v e)).1 + credit_value r,
      )
      ≡ held e
unfolding held charged_entry new_reservation video_value credit_value
charged_entry-held u now free c v e covered pos = ground arith

pub charged_entry-reservations :
    (free : Bool) (c v : ℕ) (e : Entry) → (charged_entry free c v e).reservations ≡ e.reservations
unfolding charged_entry
charged_entry-reservations free c v e = ground arith

pub new_reservation-reserved :
    (u : String) (now : ℕ) (free : Bool) (c v : ℕ)
    → (new_reservation u now free c v).status ≡ reserved
unfolding new_reservation
new_reservation-reserved u now free c v = refl

charge-held :
    (t u : String) (now : ℕ) (free : Bool) (c v : ℕ) (e : Entry)
    → t ≢ ""
    → lookup t e.reservations ≡ none
    → (if free then v else c) ≤ (if free then entry_video_quota_units e else e.credit_units)
    → 1 ≤ v
    → held (charge t u now free c v e) ≡ held e
unfolding charge
charge-held t u now free c v e named fresh covered pos =
    let r = new_reservation u now free c v in
    let e' = charged_entry free c v e in
    finish-held now _
    ∙ add_reservation-held t r e' named
        (ap (lookup t) (charged_entry-reservations free c v e) ∙ fresh)
        (new_reservation-reserved u now free c v)
    ∙ charged_entry-held u now free c v e covered pos

-- A reservation moves its price from the balance to the open reservations; nothing is lost.
pub reserve_entry-held :
    (t : String) (c : ℕ) (u : String) (v now : ℕ) (e e' : Entry)
    → t ≢ ""
    → lookup t e.reservations ≡ none
    → reserve_entry t c u v now e ≡ ok e'
    → held e' ≡ held e
unfolding reserve_entry free_used
reserve_entry-held t c u v now e e' named fresh done = ground (
  arith,
  charge-held t u now true (max 1 c) (max 1 v) e named fresh,
  charge-held t u now false (max 1 c) (max 1 v) e named fresh,
)

give_back-held :
    (r : Reservation) (e : Entry)
    → held (give_back r e).0 ≡ ((held e).0 + video_value r, (held e).1 + credit_value r)
unfolding held give_back video_value credit_value
give_back-held r e = ground arith

pub give_back-reservations :
    (r : Reservation) (e : Entry) → (give_back r e).0.reservations ≡ e.reservations
unfolding give_back
give_back-reservations r e = ground arith

-- Closing an open reservation takes its value off.
add_reservation-held_closed :
    (id : String) (old r : Reservation) (e : Entry)
    → id ≢ ""
    → lookup id e.reservations ≡ some old
    → old.status ≡ reserved
    → r.status ≡ refunded
    → (
      (held (add_reservation id r e)).0 + video_value old,
      (held (add_reservation id r e)).1 + credit_value old,
    )
      ≡ held e
unfolding held add_reservation entry_video_quota_units
add_reservation-held_closed id old r e named found o closed = ground (
  arith,
  eq_iff id "",
  open_total-insert credit_value id r old e.reservations found,
  open_total-insert video_value id r old e.reservations found,
)

close_reservation-held :
    (id : String) (now : ℕ) (r : Reservation) (e : Entry)
    → id ≢ ""
    → lookup id e.reservations ≡ some r
    → r.status ≡ reserved
    → held (close_reservation id now r e).0 ≡ held e
unfolding close_reservation
close_reservation-held id now r e named found o =
    let closed : Reservation = record r { status = refunded; refunded_at = now } in
    let returned = (give_back r e).0 in
    let still = ap (lookup id) (give_back-reservations r e) ∙ found in
    ground (
      arith,
      finish-held now (add_reservation id closed returned),
      add_reservation-held_closed id r closed returned named still o refl,
      give_back-held r e,
    )

-- A refund moves the price back from the open reservations to the balance.
pub refund_entry-held :
    (id : String) (now : ℕ) (e e' : Entry) (f : Refund)
    → id ≢ ""
    → 2 ≤ e.billing_version
    → refund_entry id now e ≡ some (e', f)
    → held e' ≡ held e
unfolding refund_entry
refund_entry-held id now e e' f named version done =
    elim (Option-cases (lookup id e.reservations)) [
      | inl absent ↦ ground (arith, eq_iff id "")
      | inr (r, found) ↦ ground (arith, eq_iff id "", close_reservation-held id now r e named found)
    ]
