-- ===== src/Accounts/Consistency.antt =====
-- app/accounts.py: the used quota of an account and its ledger.
use api.Base.{
  ℕ, ◌+◌, ◌≤◌, Bool, true, false, ◌&&◌, not, Option, none, some, List, [], ◌∷◌, String, str_eq, ◌≡◌,
  ◌⊎◌, refl, arith, if◌then◌else◌, inl, inr, ap, sym,
}
use api.Accounts.Ledger.{
  Charge, ChargeStatus, Ledger, quota_charges, active_units, reconciled_used, reconcile_ledger,
  reset_ledger, mark_charge, recounted, add_charge, refund_ledger, settle_ledger, timed_out_charges,
  time_out_ledger, insufficient_charges, exhaust_ledger, studio_insufficient_charges,
  exhaust_studio, time_out_studio, any_status, is_charged, refund_charged,
}
use api.Accounts.Charges.{
  AllNamed, quota_charges-AllNamed, quota_charges_named, AllNamed-append, active-append,
  mark-NamedIn, mark-PositiveIn, marked_or-AllNamed, marked_or-positive,
}

-- A ledger that is not in use has no charges; one in use counts what its base and its charges in
-- force come to.
abbrev pub Consistent : Ledger → Type 0
Consistent l =
    ((l.initialized ≡ false) × (l.charges ≡ []))
    ⊎ ((l.initialized ≡ true) × (l.used ≡ reconciled_used l))

if-Consistent :
    (b : Bool) (x y : Ledger)
    → (b ≡ true → Consistent x)
    → (b ≡ false → Consistent y)
    → Consistent (if b then x else y)
if-Consistent true x y f g = f refl
if-Consistent false x y f g = g refl

pub add-Consistent :
    (charge_id task_id : String) (cost now : ℕ) (l : Ledger)
    → Consistent (add_charge charge_id task_id cost now l)
unfolding add_charge reconciled_used
add-Consistent charge_id task_id cost now l = inr (refl, refl)

pub reset-Consistent : (l : Ledger) → Consistent (reset_ledger l)
unfolding reset_ledger reconciled_used quota_charges active_units
reset-Consistent l = inr (refl, omega arith)

recounted-Consistent :
    (o : Option (List Charge)) (l : Ledger)
    → (l.charges ≡ [] → o ≡ none)
    → Consistent l
    → Consistent (recounted o l).1
unfolding reconciled_used
recounted-Consistent none l absent h = h
recounted-Consistent (some cs) l absent (inl k) = absurd (ground (arith, absent k.1))
recounted-Consistent (some cs) l absent (inr k) = inr (k.0, refl)

mark-empty :
    (id : String) (test : ChargeStatus → Bool) (change : Charge → Charge) (cs : List Charge)
    → cs ≡ []
    → mark_charge id test change cs ≡ none
unfolding mark_charge
mark-empty id test change [] e = refl
mark-empty id test change (c ∷ cs) e = absurd (ground (arith, e))

pub refund-Consistent :
    (id : String) (now : ℕ) (l : Ledger) → Consistent l → Consistent (refund_ledger id now l).1
unfolding refund_ledger reconciled_used
refund-Consistent id now l h = recounted-Consistent _ l (mark-empty id is_charged _ l.charges) h

pub settle-Consistent :
    (id : String) (now : ℕ) (l : Ledger) → Consistent l → Consistent (settle_ledger id now l).1
unfolding settle_ledger reconciled_used
settle-Consistent id now l h = recounted-Consistent _ l (mark-empty id is_charged _ l.charges) h

pub reconcile-Consistent : (l : Ledger) → Consistent l → Consistent (reconcile_ledger l)
unfolding reconcile_ledger reconciled_used
reconcile-Consistent l h =
    let named = quota_charges_named (quota_charges l.charges) (quota_charges-AllNamed l.charges) in
    if-Consistent l.initialized _ l
      (λ open_. inr (open_, ap (λ cs. l.base + active_units cs) (sym named))) (λ _. h)

pub time_out-Consistent :
    (id : String) (today now : ℕ) (l : Ledger)
    → str_eq id "" ≡ false
    → Consistent (time_out_ledger id today now l)
unfolding time_out_ledger reconciled_used
time_out-Consistent id today now l n =
    if-Consistent (str_eq id "") _ _ (λ e. absurd (ground arith)) (λ _. inr (refl, refl))

pub exhaust-Consistent :
    (id : String) (today now : ℕ) (l : Ledger)
    → str_eq id "" ≡ false
    → Consistent l
    → Consistent (exhaust_ledger id today now l)
unfolding exhaust_ledger reconciled_used
exhaust-Consistent id today now l n h =
    if-Consistent (not (str_eq id "") && l.initialized) _ _ (λ b. inr (ground arith, omega arith))
      (λ closed. ground arith)

timed_out-AllNamed :
    (id : String) (now : ℕ) (cs : List Charge)
    → str_eq id "" ≡ false
    → AllNamed cs
    → AllNamed (timed_out_charges id now cs)
unfolding timed_out_charges
timed_out-AllNamed id now cs n h =
    marked_or-AllNamed _ _ (mark-NamedIn id any_status _ cs (λ c. refl) h)
      (AllNamed-append cs _ h (ground arith))

timed_out-positive :
    (id : String) (now : ℕ) (cs : List Charge) → 1 ≤ active_units (timed_out_charges id now cs)
unfolding timed_out_charges active_units
timed_out-positive id now cs =
    marked_or-positive _ _ (mark-PositiveIn id any_status _ cs (λ c. refl))
      (omega (arith, active-append cs _))

insufficient-AllNamed :
    (id : String) (now : ℕ) (cs : List Charge)
    → AllNamed cs
    → AllNamed (insufficient_charges id now cs)
unfolding insufficient_charges
insufficient-AllNamed id now cs h =
    marked_or-AllNamed _ cs (mark-NamedIn id is_charged _ cs (λ c. refl) h) h

if-AllNamed :
    (b : Bool) (x y : List Charge)
    → (b ≡ true → AllNamed x)
    → (b ≡ false → AllNamed y)
    → AllNamed (if b then x else y)
if-AllNamed true x y f g = f refl
if-AllNamed false x y f g = g refl

refund_charged-id : (now : ℕ) (c : Charge) → (refund_charged now c).charge_id ≡ c.charge_id
refund_charged-id now c = ground arith

studio-AllNamed :
    (id : String) (now : ℕ) (cs : List Charge)
    → AllNamed cs
    → AllNamed (studio_insufficient_charges id now cs)
unfolding studio_insufficient_charges
studio-AllNamed id now cs h =
    if-AllNamed (str_eq id "") cs _ (λ _. h)
      (λ n.
        marked_or-AllNamed _ _ (mark-NamedIn id any_status _ cs (refund_charged-id now) h)
          (AllNamed-append cs _ h (ground arith)))

pub exhaust_studio-Consistent :
    (id : String) (today now : ℕ) (l : Ledger) → Consistent (exhaust_studio id today now l)
unfolding exhaust_studio reconciled_used
exhaust_studio-Consistent id today now l =
    let named = quota_charges-AllNamed l.charges in
    let charges = studio_insufficient_charges id now (quota_charges l.charges) in
    let same : quota_charges charges ≡ charges =
      quota_charges_named charges (studio-AllNamed id now (quota_charges l.charges) named) in
    inr (refl, omega (arith, ap active_units same))

pub time_out_studio-Consistent :
    (id : String) (today now : ℕ) (l : Ledger)
    → str_eq id "" ≡ false
    → Consistent (time_out_studio id today now l)
unfolding time_out_studio reconciled_used
time_out_studio-Consistent id today now l n =
    let named = quota_charges-AllNamed l.charges in
    let charges = timed_out_charges id now (quota_charges l.charges) in
    let same : quota_charges charges ≡ charges =
      quota_charges_named charges (timed_out-AllNamed id now (quota_charges l.charges) n named) in
    inr (
      refl,
      ground (arith, ap active_units same, timed_out-positive id now (quota_charges l.charges)),
    )
