-- ===== src/Tokens/Refunds.antt =====
-- app/temp_access.py: the refund of a task after its reservation.
use api.Base.{
  ℕ, ◌+◌, ◌/◌, ◌≤◌, max, ◌≡◌, ◌≢◌, ◌∙◌, ap, arith, none, some, String, true, false, Bool, false,
  if◌then◌else◌, inl, inr, eq_iff,
}
use api.Base.Result.{ok, Result-cases}
use api.Base.Dict.{lookup, insert, lookup-insert}
use api.Tokens.Entry.{
  Reservation, reserved, Entry, AccessContext, entry_video_quota_units, migrate_entry,
}
use api.Tokens.Quota.{
  charge, add_reservation, charged_entry, new_reservation, finish, free_used, reserve_entry,
  find_reservation, give_back, close_reservation, refund_entry, Refund, reserve_temp_quota,
  refund_temp_quota_hash, World, Tokens,
}
use api.Tokens.Reservations.{prune-lookup_open}
use api.Tokens.Payment.{balances, finish_fields, add_reservation-balances, charge-balances}
use api.Tokens.Held.{credit_value, video_value, new_reservation-reserved}

give_back-balances :
    (r : Reservation) (e : Entry)
    → balances (give_back r e).0 ≡ ((balances e).0 + video_value r, (balances e).1 + credit_value r)
unfolding give_back video_value credit_value
give_back-balances r e = ground arith

close_reservation-balances :
    (id : String) (now : ℕ) (r : Reservation) (e : Entry)
    → balances (close_reservation id now r e).0
      ≡ ((balances e).0 + video_value r, (balances e).1 + credit_value r)
unfolding close_reservation
close_reservation-balances id now r e =
    (finish_fields now _).0 ∙ add_reservation-balances id _ _ ∙ give_back-balances r e

-- The charge of a covered price, and the value of its reservation.
charged_entry-value :
    (u : String) (now : ℕ) (free : Bool) (c v : ℕ) (e : Entry)
    → (if free then v else c) ≤ (if free then entry_video_quota_units e else e.credit_units)
    → 1 ≤ v
    → let r = new_reservation u now free c v in
      (
        (balances (charged_entry free c v e)).0 + video_value r,
        (balances (charged_entry free c v e)).1 + credit_value r,
      )
      ≡ balances e
unfolding charged_entry new_reservation video_value credit_value
charged_entry-value u now free c v e covered pos = ground arith

pub add_reservation-lookup :
    (t : String) (r : Reservation) (e : Entry)
    → t ≢ ""
    → lookup t (add_reservation t r e).reservations ≡ some r
unfolding add_reservation
add_reservation-lookup t r e named =
    ground (arith, eq_iff t "", eq_iff t t, lookup-insert t t r e.reservations)

finish-lookup_open :
    (k : String) (r : Reservation) (now : ℕ) (e : Entry)
    → lookup k e.reservations ≡ some r
    → r.status ≡ reserved
    → lookup k (finish now e).reservations ≡ some r
finish-lookup_open k r now e found o =
    ap (lookup k) (finish_fields now e).2 ∙ prune-lookup_open k r e 1000 found o

charge-found :
    (t u : String) (now : ℕ) (free : Bool) (c v : ℕ) (e : Entry)
    → t ≢ ""
    → lookup t (charge t u now free c v e).reservations ≡ some (new_reservation u now free c v)
unfolding charge
charge-found t u now free c v e named =
    finish-lookup_open t _ now _ (add_reservation-lookup t _ _ named)
      (new_reservation-reserved u now free c v)

charge-version :
    (t u : String) (now : ℕ) (free : Bool) (c v : ℕ) (e : Entry)
    → (charge t u now free c v e).billing_version ≡ e.billing_version
unfolding charge add_reservation charged_entry
charge-version t u now free c v e = (finish_fields now _).1 ∙ (ground arith)

refund_entry-open :
    (id : String) (now : ℕ) (r : Reservation) (e : Entry)
    → id ≢ ""
    → 2 ≤ e.billing_version
    → lookup id e.reservations ≡ some r
    → r.status ≡ reserved
    → refund_entry id now e ≡ some (close_reservation id now r e)
unfolding refund_entry
refund_entry-open id now r e named version found o = ground (arith, eq_iff id "")

refund_charge :
    (t u : String) (now now' : ℕ) (free : Bool) (c v : ℕ) (e : Entry)
    → t ≢ ""
    → 2 ≤ e.billing_version
    → (if free then v else c) ≤ (if free then entry_video_quota_units e else e.credit_units)
    → 1 ≤ v
    → let e' = charge t u now free c v e in
      let closed = close_reservation t now' (new_reservation u now free c v) e' in
      (refund_entry t now' e' ≡ some closed) × (balances closed.0 ≡ balances e)
refund_charge t u now now' free c v e named version covered pos =
    let e' = charge t u now free c v e in
    let r = new_reservation u now free c v in
    (
      refund_entry-open t now' r e' named (rw (charge-version t u now free c v e) version)
          (charge-found t u now free c v e named) (new_reservation-reserved u now free c v),
      ground (
        arith,
        close_reservation-balances t now' r e',
        charge-balances t u now free c v e,
        charged_entry-value u now free c v e covered pos,
      ),
    )

-- The charge that a successful reservation made.
reserve_entry-charge :
    (t : String) (c : ℕ) (u : String) (v now : ℕ) (e e' : Entry)
    → reserve_entry t c u v now e ≡ ok e'
    → (free : Bool) × (e' ≡ charge t u now free (max 1 c) (max 1 v) e)
      × ((if free then max 1 v else max 1 c)
          ≤ (if free then entry_video_quota_units e else e.credit_units))
unfolding reserve_entry free_used
reserve_entry-charge t c u v now e e' done =
    (free_used e (max 1 c) (max 1 v), ground arith, ground arith)

pub reserve_entry-version :
    (t : String) (c : ℕ) (u : String) (v now : ℕ) (e e' : Entry)
    → reserve_entry t c u v now e ≡ ok e'
    → e'.billing_version ≡ e.billing_version
reserve_entry-version t c u v now e e' done =
    let (free, charged, covered) = reserve_entry-charge t c u v now e e' done in
    ap (λ x. x.billing_version) charged ∙ charge-version t u now free (max 1 c) (max 1 v) e

refund_reserve_entry :
    (t : String) (c : ℕ) (u : String) (v now now' : ℕ) (e e' : Entry)
    → t ≢ ""
    → 2 ≤ e.billing_version
    → reserve_entry t c u v now e ≡ ok e'
    → (after : Entry × Refund) × (refund_entry t now' e' ≡ some after)
      × (balances after.0 ≡ balances e)
refund_reserve_entry t c u v now now' e e' named version done =
    let (free, charged, covered) = reserve_entry-charge t c u v now e e' done in
    let (closes, restores) =
      refund_charge t u now now' free (max 1 c) (max 1 v) e named version covered (omega arith) in
    (_, ap (refund_entry t now') charged ∙ closes, restores)

-- At version 3 nothing is migrated.
pub migrate_entry-current :
    (e : Entry) (free_limit : ℕ) → e.billing_version ≡ 3 → migrate_entry e free_limit ≡ (e, false)
unfolding migrate_entry
migrate_entry-current e free_limit h = ground arith

-- A successful reservation of a task that has none yet is a successful charge of the entry.
reserve_temp_quota-paid :
    (access : AccessContext) (t : String) (c : ℕ) (u : String) (v now : ℕ) (tokens after : Tokens)
    (stored : Entry) (context : AccessContext)
    → access.is_temp ≡ true
    → lookup access.token_hash tokens ≡ some stored
    → stored.billing_version ≡ 3
    → lookup t stored.reservations ≡ none
    → reserve_temp_quota access t c u v now tokens ≡ (ok context, after)
    → (paid : Entry) × (reserve_entry t c u v now stored ≡ ok paid)
      × (after ≡ insert access.token_hash paid tokens)
unfolding reserve_temp_quota find_reservation
reserve_temp_quota-paid access t c u v now tokens after stored context temp found version new done =
    let current = migrate_entry-current stored (access.free_remaining / 10) version in
    elim (Result-cases (reserve_entry t c u v now stored)) [
      | inl (e, refused) ↦ absurd (ground (arith, current))
      | inr (paid, charged) ↦ (paid, charged, ground (arith, current))
    ]

refund_temp_quota_hash-refunds :
    (normalize : String → String) (raw id fresh : String) (now : ℕ) (w : World) (e after : Entry)
    (f : Refund)
    → normalize raw ≢ ""
    → lookup (normalize raw) w.tokens ≡ some e
    → refund_entry id now e ≡ some (after, f)
    → let (done, w') = refund_temp_quota_hash normalize raw id fresh now w in
      (done ≡ true) × (w'.tokens ≡ insert (normalize raw) after w.tokens)
unfolding refund_temp_quota_hash
refund_temp_quota_hash-refunds normalize raw id fresh now w e after f known found refunds =
    ground (arith, eq_iff (normalize raw) "")

-- A reservation by a token at billing version 3 that has none for the task yet, followed by the
-- refund of the task by the same token: the refund succeeds and the balances are as before.
pub refund-reserve :
    (normalize : String → String) (access : AccessContext) (t : String) (c : ℕ) (u : String)
    (v now now' : ℕ) (raw fresh : String) (w : World) (stored : Entry) (context : AccessContext)
    (reserved_tokens : Tokens)
    → access.is_temp ≡ true
    → normalize raw ≢ ""
    → normalize raw ≡ access.token_hash
    → t ≢ ""
    → lookup access.token_hash w.tokens ≡ some stored
    → stored.billing_version ≡ 3
    → lookup t stored.reservations ≡ none
    → reserve_temp_quota access t c u v now w.tokens ≡ (ok context, reserved_tokens)
    → let (done, w') =
        refund_temp_quota_hash normalize raw t fresh now' (record w { tokens = reserved_tokens }) in
      (done ≡ true)
      × (after : Entry) × (lookup access.token_hash w'.tokens ≡ some after)
      × (balances after ≡ balances stored)
refund-reserve normalize access t c u v now now' raw fresh w stored context tokens temp known same
      named found version new done =
    let (paid, charged, tokens') =
      reserve_temp_quota-paid access t c u v now w.tokens tokens stored context temp found version
        new done in
    let (after, refunds, restores) =
      refund_reserve_entry t c u v now now' stored paid named (omega arith) charged in
    let h = normalize raw in
    let stored_paid : lookup h tokens ≡ some paid =
      rw (tokens', same, lookup-insert)
        (ground (arith, eq_iff access.token_hash access.token_hash)) in
    let (succeeds, written) =
      refund_temp_quota_hash-refunds normalize raw t fresh now' (record w { tokens = tokens }) paid
        after.0 after.1 known stored_paid refunds in
    (
      succeeds,
      after.0,
      ap (lookup access.token_hash) written
          ∙ ground
              (arith, eq_iff h access.token_hash, lookup-insert h access.token_hash after.0 tokens),
      restores,
    )
