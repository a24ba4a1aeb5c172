-- ===== src/Tokens/Once.antt =====
-- app/temp_access.py: a second refund of a task.
use api.Base.{
  Bool-cases, leb→le, sym, subst, ℕ, zero, suc, ◌-◌, ◌≤◌, ◌<◌, ◌≡◌, ◌≢◌, ◌∙◌, ap, refl, arith, none,
  some, String, true, false, leb, List, [], ◌∷◌, ◌++◌, length, drop, ◌⊎◌, false, length-append, inl,
  inr, eq_iff, Option-cases,
}
use api.Base.Dict.{lookup, lookup-insert, IsDict, insert-IsDict}
use api.Tokens.Entry.{Reservation, refunded, Entry}
use api.Tokens.Quota.{
  add_reservation, give_back, close_reservation, refund_entry, refund_use, Refund, mem_string,
  refund_temp_quota_hash, World,
}
use api.Tokens.Reservations.{prune-lookup_closed}
use api.Tokens.Payment.{finish_fields}
use api.Tokens.Refunds.{add_reservation-lookup}
use api.Tokens.Held.{give_back-reservations}

mem_string-drop :
    (s : String) (k : ℕ) (xs : List String)
    → k ≤ length xs
    → mem_string s (drop k (xs ++ s ∷ [])) ≡ true
unfolding mem_string
mem_string-drop s zero [] h = ground (arith, eq_iff s s)
mem_string-drop s (suc k) [] h = absurd (omega arith)
mem_string-drop s zero (x ∷ xs) h = ground (arith, mem_string-drop s 0 xs)
mem_string-drop s (suc k) (x ∷ xs) h = mem_string-drop s k xs (omega arith)

refund_use_twice :
    (id : String) (now now' : ℕ) (e e' : Entry) (f : Refund)
    → id ≢ ""
    → refund_use id now e ≡ some (e', f)
    → refund_use id now' e' ≡ none
unfolding refund_use
refund_use_twice id now now' e e' f named done =
    let ids = e.quota_refund_ids in
    let k = length (ids ++ id ∷ []) - 1000 in
    ground (arith, eq_iff id "", length-append ids (id ∷ []), mem_string-drop id k ids)

add_reservation-IsDict :
    (t : String) (r : Reservation) (e : Entry)
    → IsDict e.reservations
    → IsDict (add_reservation t r e).reservations
unfolding add_reservation
add_reservation-IsDict t r e u = ground (arith, insert-IsDict t r e.reservations u)

close_reservation-closed :
    (id : String) (now : ℕ) (r s : Reservation) (e : Entry)
    → id ≢ ""
    → IsDict e.reservations
    → lookup id (close_reservation id now r e).0.reservations ≡ some s
    → s.status ≡ refunded
unfolding close_reservation
close_reservation-closed id now r s e named u found =
    let closed : Reservation = record r { status = refunded; refunded_at = now } in
    let returned = (give_back r e).0 in
    let marked = add_reservation id closed returned in
    prune-lookup_closed id closed s marked 1000
      (add_reservation-IsDict id closed returned (rw (give_back-reservations r e) u))
      (add_reservation-lookup id closed returned named) refl
      (ap (lookup id) (sym (finish_fields now marked).2) ∙ found)

close_reservation-version :
    (id : String) (now : ℕ) (r : Reservation) (e : Entry)
    → (close_reservation id now r e).0.billing_version ≡ e.billing_version
unfolding close_reservation add_reservation give_back
close_reservation-version id now r e = (finish_fields now _).1 ∙ (ground arith)

refund_entry-closed :
    (id : String) (now : ℕ) (e : Entry)
    → id ≢ ""
    → 2 ≤ e.billing_version
    → ((s : Reservation) → lookup id e.reservations ≡ some s → s.status ≡ refunded)
    → refund_entry id now e ≡ none
unfolding refund_entry
refund_entry-closed id now e named version closed = elim (Option-cases (lookup id e.reservations)) [
  | inl absent ↦ ground (arith, eq_iff id "")
  | inr (s, found) ↦ ground (arith, eq_iff id "", closed s found)
]

-- The two branches of a refund that happened.
refund_entry_cases :
    (id : String) (now : ℕ) (e e' : Entry) (f : Refund)
    → id ≢ ""
    → refund_entry id now e ≡ some (e', f)
    → (2 ≤ e.billing_version) × ((r : Reservation) × ((close_reservation id now r e).0 ≡ e'))
      ⊎ (e.billing_version < 2) × (refund_use id now e ≡ some (e', f))
unfolding refund_entry
refund_entry_cases id now e e' f named done = elim (Option-cases (lookup id e.reservations)) [
  | inl absent ↦ ground (arith, eq_iff id "")
  | inr (r, found) ↦ elim (Bool-cases (leb 2 e.billing_version)) [
    | inl new ↦ inl (omega (arith, leb→le _ _ new), (r, ground (arith, eq_iff id "")))
    | inr old ↦ ground (arith, eq_iff id "")
  ]
]

refund_use-version :
    (id : String) (now : ℕ) (e e' : Entry) (f : Refund)
    → refund_use id now e ≡ some (e', f)
    → e'.billing_version ≡ e.billing_version
unfolding refund_use
refund_use-version id now e e' f done = ground arith

pub refund_entry-version :
    (id : String) (now : ℕ) (e e' : Entry) (f : Refund)
    → id ≢ ""
    → refund_entry id now e ≡ some (e', f)
    → e'.billing_version ≡ e.billing_version
refund_entry-version id now e e' f named done = elim (refund_entry_cases id now e e' f named done) [
  | inl (new, (r, closed)) ↦
      ap (λ x. x.billing_version) (sym closed) ∙ close_reservation-version id now r e
  | inr (old, used) ↦ refund_use-version id now e e' f used
]

refund_entry-old :
    (id : String) (now : ℕ) (e : Entry)
    → e.billing_version < 2
    → refund_entry id now e ≡ refund_use id now e
unfolding refund_entry
refund_entry-old id now e old = ground arith

-- An identifier that was refunded is not refunded again, at any billing version.
pub refund_entry_twice :
    (id : String) (now now' : ℕ) (e e' : Entry) (f : Refund)
    → id ≢ ""
    → IsDict e.reservations
    → refund_entry id now e ≡ some (e', f)
    → refund_entry id now' e' ≡ none
refund_entry_twice id now now' e e' f named unique done =
    elim (refund_entry_cases id now e e' f named done) [
      | inl (new, (r, closed)) ↦
          subst (λ x. refund_entry id now' x ≡ none) closed
            (refund_entry-closed id now' _ named (rw (close_reservation-version id now r e) new)
              (λ s. close_reservation-closed id now r s e named unique))
      | inr (old, used) ↦
          refund_entry-old id now' e' (rw (refund_use-version id now e e' f used) old)
          ∙ refund_use_twice id now now' e e' f named used
    ]

refund_temp_quota_hash-refused :
    (normalize : String → String) (raw id fresh : String) (now : ℕ) (w : World) (e : Entry)
    → lookup (normalize raw) w.tokens ≡ some e
    → refund_entry id now e ≡ none
    → refund_temp_quota_hash normalize raw id fresh now w ≡ (false, w)
unfolding refund_temp_quota_hash
refund_temp_quota_hash-refused normalize raw id fresh now w e found refused = ground arith

refund_temp_quota_hash-stored :
    (normalize : String → String) (raw id fresh : String) (now : ℕ) (w w' : World) (e : Entry)
    → lookup (normalize raw) w.tokens ≡ some e
    → refund_temp_quota_hash normalize raw id fresh now w ≡ (true, w')
    → (after : Entry) × (f : Refund) × (refund_entry id now e ≡ some (after, f))
      × (lookup (normalize raw) w'.tokens ≡ some after)
unfolding refund_temp_quota_hash
refund_temp_quota_hash-stored normalize raw id fresh now w w' e found done =
    elim (Option-cases (refund_entry id now e)) [
      | inl refused ↦ absurd (ground arith)
      | inr ((after, f), refunds) ↦
          let h = normalize raw in
          (after, f, refunds, ground (arith, eq_iff h h, lookup-insert h h after w.tokens))
    ]

-- After a refund that succeeded, a second refund of the same task returns False and leaves the
-- tokens and the ledger alone, whatever the time.
pub refund_once :
    (normalize : String → String) (raw id fresh fresh' : String) (now now' : ℕ) (w w' : World)
    (e : Entry)
    → id ≢ ""
    → lookup (normalize raw) w.tokens ≡ some e
    → IsDict e.reservations
    → refund_temp_quota_hash normalize raw id fresh now w ≡ (true, w')
    → refund_temp_quota_hash normalize raw id fresh' now' w' ≡ (false, w')
refund_once normalize raw id fresh fresh' now now' w w' e named found unique done =
    let (after, f, refunds, stored) =
      refund_temp_quota_hash-stored normalize raw id fresh now w w' e found done in
    refund_temp_quota_hash-refused normalize raw id fresh' now' w' after stored
      (refund_entry_twice id now now' e after f named unique refunds)
