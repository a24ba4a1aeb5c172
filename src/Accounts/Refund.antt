-- ===== src/Accounts/Refund.antt =====
-- app/accounts.py: a charge that is put into a ledger, and what settling and refunding it do.
use api.Base.{
  ℕ, ◌+◌, true, false, List, [], ◌∷◌, ◌++◌, String, str_eq, ◌≡◌, refl, arith, if◌then◌else◌, inl,
  inr, ap, ◌∙◌,
}
use api.Accounts.Ledger.{
  Charge, Ledger, charged, settled, refunded, no_reason, is_charged, is_named, quota_charges,
  active_units, reconciled_used, initialize_ledger, recounted, add_charge, refund_ledger,
  settle_ledger,
}
use api.Accounts.Charges.{
  quota_charges-AllNamed, quota_charges_named, active-append, quota_charges-append, is_absent,
  quota_charges-absent, mark-last, mark-refused,
}
use api.Accounts.Consistency.{Consistent}

-- The base of the ledger once it is in use.
abbrev pub base_of : Ledger → ℕ
base_of l = if l.initialized then l.base else l.used

base_of-used :
    (l : Ledger) → Consistent l → base_of l + active_units (quota_charges l.charges) ≡ l.used
unfolding reconciled_used quota_charges active_units
base_of-used l (inl k) =
    let empty : active_units (quota_charges l.charges) ≡ 0 =
      ap (λ cs. active_units (quota_charges cs)) k.1 in
    ground (arith, empty, k.0)
base_of-used l (inr k) = ground (arith, k.0, k.1)

-- The units of the charges in force with one more at the end.
last-active :
    (cs : List Charge) (c : Charge)
    → is_named c ≡ true
    → active_units (quota_charges (quota_charges cs ++ c ∷ []))
      ≡ active_units (quota_charges cs) + active_units (c ∷ [])
last-active cs c n =
    ap active_units (quota_charges-append (quota_charges cs) c n)
    ∙ active-append (quota_charges (quota_charges cs)) c
    ∙ ap (λ ds. active_units ds + active_units (c ∷ []))
        (quota_charges_named (quota_charges cs) (quota_charges-AllNamed cs))

-- A ledger in which the last charge is `c`.
abbrev pub with_last : Ledger → Charge → Ledger
with_last l c = record l {
  base = base_of l;
  initialized = true;
  charges = quota_charges l.charges ++ c ∷ [];
  used = base_of l + active_units (quota_charges (quota_charges l.charges ++ c ∷ []));
}

pub with_last-used :
    (l : Ledger) (c : Charge)
    → Consistent l
    → is_named c ≡ true
    → (with_last l c).used ≡ l.used + active_units (c ∷ [])
with_last-used l c h n = omega (arith, base_of-used l h, last-active l.charges c n)

abbrev pub new_charge : (charge_id task_id : String) → (cost now : ℕ) → Charge
new_charge charge_id task_id cost now = record {
  charge_id = charge_id;
  task_id = task_id;
  units = cost;
  status = charged;
  charged_at = now;
  refunded_at = 0;
  refund_reason = no_reason;
  settled_at = 0;
  settle_reason = no_reason;
}

pub add_charge-last :
    (id task : String) (cost now : ℕ) (l : Ledger)
    → add_charge id task cost now l ≡ with_last l (new_charge id task cost now)
unfolding add_charge reconciled_used initialize_ledger
add_charge-last id task cost now l = refl

module _ (id : String) (later : ℕ) (l : Ledger) (c : Charge) where
  abbrev pub refunded_last : Charge
  refunded_last = record c { status = refunded; refunded_at = later }

  abbrev pub settled_last : Charge
  settled_last = record c { status = settled; settled_at = later }

  pub refund-last :
      is_absent id l.charges ≡ true
      → is_named c ≡ true
      → str_eq c.charge_id id ≡ true
      → is_charged c.status ≡ true
      → refund_ledger id later (with_last l c) ≡ (true, with_last l refunded_last)
  unfolding refund_ledger reconciled_used
  refund-last a n e t =
      ap (λ o. recounted o (with_last l c))
        (mark-last id is_charged (λ d. record d { status = refunded; refunded_at = later })
          (quota_charges l.charges) c (quota_charges-absent id l.charges a) n e t)

  pub settle-last :
      is_absent id l.charges ≡ true
      → is_named c ≡ true
      → str_eq c.charge_id id ≡ true
      → is_charged c.status ≡ true
      → settle_ledger id later (with_last l c) ≡ (true, with_last l settled_last)
  unfolding settle_ledger reconciled_used
  settle-last a n e t =
      ap (λ o. recounted o (with_last l c))
        (mark-last id is_charged (λ d. record d { status = settled; settled_at = later })
          (quota_charges l.charges) c (quota_charges-absent id l.charges a) n e t)

  pub refund-refused :
      is_absent id l.charges ≡ true
      → is_charged c.status ≡ false
      → refund_ledger id later (with_last l c) ≡ (false, with_last l c)
  unfolding refund_ledger
  refund-refused a t =
      ap (λ o. recounted o (with_last l c))
        (mark-refused id is_charged (λ d. record d { status = refunded; refunded_at = later })
          (quota_charges l.charges) c (quota_charges-absent id l.charges a) t)

  pub settle-refused :
      is_absent id l.charges ≡ true
      → is_charged c.status ≡ false
      → settle_ledger id later (with_last l c) ≡ (false, with_last l c)
  unfolding settle_ledger
  settle-refused a t =
      ap (λ o. recounted o (with_last l c))
        (mark-refused id is_charged (λ d. record d { status = settled; settled_at = later })
          (quota_charges l.charges) c (quota_charges-absent id l.charges a) t)
