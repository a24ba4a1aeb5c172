-- ===== src/Accounts/Repay.antt =====
-- app/accounts.py: the charge of an account that a task took, given back or settled.
use api.Base.{
  ℕ, ◌+◌, max, Bool, true, false, Option, none, some, [], ◌∷◌, not, String, str_eq, ◌≡◌, refl,
  arith, if◌then◌else◌, Bool-cases, inl, inr, ap, ◌∙◌, subst, eq_iff,
}
use api.Accounts.Ledger.{Ledger, Charge, is_charged, is_named, active_units}
use api.Accounts.Account.{Account}
use api.Accounts.Select.{Request, studio_quota, ledger_of}
use api.Accounts.Claim.{take_account}
use api.Accounts.Quota.{is_studio_charge, refund_account, settle_account}
use api.Accounts.Charges.{is_absent}
use api.Accounts.Consistency.{Consistent}
use api.Accounts.Refund.{
  new_charge, refunded_last, settled_last, with_last, with_last-used, refund-last, settle-last,
  refund-refused, settle-refused,
}
use api.Accounts.Give.{
  with_studio, with_quota, refund-studio, refund-studio_refused, refund-quota, refund-quota_refused,
  settle-studio, settle-studio_refused, settle-quota, settle-quota_refused, taken, take-studio,
  take-quota,
}

-- The ledger uses `units`, and the charge can be neither refunded nor settled any more.
abbrev pub Closed : Request → (charge : String) → (again units : ℕ) → Account → Type 0
Closed r charge again units b =
    ((ledger_of r b).used ≡ units)
    × (refund_account charge again b ≡ none)
    × (settle_account charge again b ≡ none)

-- What is known of a ledger in which a charge is to be put.
abbrev Fresh : (charge : String) → Ledger → Type 0
Fresh charge l = Consistent l × (is_absent charge l.charges ≡ true)

module _ (r : Request) (charge : String) (later again : ℕ) (a x : Account) (c : Charge)
    (t : is_charged c.status ≡ false) (n : is_named c ≡ true) where
  studio-Closed :
      studio_quota r ≡ true
      → is_studio_charge charge ≡ true
      → Fresh charge a.studio
      → Closed r charge again
          (a.studio.used + active_units (c ∷ []))
          (with_studio x later (with_last a.studio c))
  studio-Closed s b f =
      let after = with_studio x later (with_last a.studio c) in
      let used : (ledger_of r after).used ≡ a.studio.used + active_units (c ∷ []) =
        rw s (with_last-used a.studio c f.0 n) in
      (
        used,
        refund-studio_refused charge again after _ b refl
            (refund-refused charge again a.studio c f.1 t),
        settle-studio_refused charge again after _ b (settle-refused charge again a.studio c f.1 t),
      )

  quota-Closed :
      studio_quota r ≡ false
      → is_studio_charge charge ≡ false
      → Fresh charge a.quota
      → Closed r charge again
          (a.quota.used + active_units (c ∷ []))
          (with_quota x later (with_last a.quota c))
  quota-Closed s b f =
      let after = with_quota x later (with_last a.quota c) in
      let used : (ledger_of r after).used ≡ a.quota.used + active_units (c ∷ []) =
        rw s (with_last-used a.quota c f.0 n) in
      (
        used,
        refund-quota_refused charge again after _ b refl
            (refund-refused charge again a.quota c f.1 t),
        settle-quota_refused charge again after _ b (settle-refused charge again a.quota c f.1 t),
      )

module _ (r : Request) (worker task charge : String) (now later again : ℕ) (a : Account) where
  -- What comes of giving the charge of a claim back, in a way that leaves the ledger with `units`.
  abbrev pub ClosedBy : (String → ℕ → Account → Option Account) → ℕ → Type 0
  ClosedBy give units =
      (b : Account) × (give charge later (take_account r worker task charge now a) ≡ some b)
      × Closed r charge again units b

  abbrev pub new : Charge
  new = new_charge charge task r.quota_cost now

  abbrev claimed_studio : Account
  claimed_studio = record (taken r worker task charge now later a) {
    studio = with_last a.studio new;
  }

  abbrev claimed_quota : Account
  claimed_quota = record (taken r worker task charge now later a) { quota = with_last a.quota new }

  module _ (give : String → ℕ → Account → Option Account) (units : ℕ) (c : Charge)
      (t : is_charged c.status ≡ false) (named : str_eq charge "" ≡ false)
      (same : c.charge_id ≡ charge) where
    c-named : is_named c ≡ true
    c-named = rw same (ap not named)

    studio-ClosedBy :
        studio_quota r ≡ true
        → is_studio_charge charge ≡ true
        → Fresh charge a.studio
        → give charge later claimed_studio
          ≡ some (with_studio claimed_studio later (with_last a.studio c))
        → a.studio.used + active_units (c ∷ []) ≡ units
        → ClosedBy give units
    studio-ClosedBy s b f e u = (
      with_studio claimed_studio later (with_last a.studio c),
      rw (take-studio r worker task charge now later a s) e,
      subst (λ k. Closed r charge again k (with_studio claimed_studio later (with_last a.studio c)))
          u (studio-Closed r charge later again a claimed_studio c t c-named s b f),
    )

    quota-ClosedBy :
        studio_quota r ≡ false
        → is_studio_charge charge ≡ false
        → Fresh charge a.quota
        → give charge later claimed_quota
          ≡ some (with_quota claimed_quota later (with_last a.quota c))
        → a.quota.used + active_units (c ∷ []) ≡ units
        → ClosedBy give units
    quota-ClosedBy s b f e u = (
      with_quota claimed_quota later (with_last a.quota c),
      rw (take-quota r worker task charge now later a s) e,
      subst (λ k. Closed r charge again k (with_quota claimed_quota later (with_last a.quota c))) u
          (quota-Closed r charge later again a claimed_quota c t c-named s b f),
    )

  module _ (ok : Consistent (ledger_of r a)) (named : str_eq charge "" ≡ false)
      (fresh : is_absent charge (ledger_of r a).charges ≡ true)
      (bucket : is_studio_charge charge ≡ studio_quota r) where
    ledger_Fresh : (b : Bool) → studio_quota r ≡ b → Fresh charge (if b then a.studio else a.quota)
    ledger_Fresh b e = subst (λ q. Fresh charge (if q then a.studio else a.quota)) e (ok, fresh)

    same : str_eq charge charge ≡ true
    same = (eq_iff charge charge).1 refl

    -- A refund of the charge of a claim, of an account whose ledger is in order and has no such charge,
    -- brings the used quota back to what it was before the claim; then the charge can be neither refunded
    -- again nor settled.
    pub refund_claim : ClosedBy refund_account (ledger_of r a).used
    unfolding active_units
    refund_claim =
        elim (Bool-cases (studio_quota r)) as (λ _. ClosedBy refund_account (ledger_of r a).used) [
          | inl s ↦
              let b : is_studio_charge charge ≡ true = bucket ∙ s in
              let f = ledger_Fresh true s in
              let e = refund-last charge later a.studio new f.1 (ap not named) same refl in
              studio-ClosedBy refund_account _ (refunded_last charge later a.studio new) refl named
                refl s b f (refund-studio charge later claimed_studio _ b refl e)
                (rw s (omega arith))
          | inr s ↦
              let b : is_studio_charge charge ≡ false = bucket ∙ s in
              let f = ledger_Fresh false s in
              let e = refund-last charge later a.quota new f.1 (ap not named) same refl in
              quota-ClosedBy refund_account _ (refunded_last charge later a.quota new) refl named
                refl s b f (refund-quota charge later claimed_quota _ b refl e) (rw s (omega arith))
        ]

    -- A settlement of the charge of a claim, of an account whose ledger is in order and has no such
    -- charge, leaves its cost counted, and the charge can be neither settled again nor refunded.
    pub settle_claim : ClosedBy settle_account ((ledger_of r a).used + max 1 r.quota_cost)
    unfolding active_units
    settle_claim =
        elim (Bool-cases (studio_quota r))
          as (λ _. ClosedBy settle_account ((ledger_of r a).used + max 1 r.quota_cost)) [
            | inl s ↦
                let b : is_studio_charge charge ≡ true = bucket ∙ s in
                let f = ledger_Fresh true s in
                let e = settle-last charge later a.studio new f.1 (ap not named) same refl in
                studio-ClosedBy settle_account _ (settled_last charge later a.studio new) refl named
                  refl s b f (settle-studio charge later claimed_studio _ b e) (rw s (omega arith))
            | inr s ↦
                let b : is_studio_charge charge ≡ false = bucket ∙ s in
                let f = ledger_Fresh false s in
                let e = settle-last charge later a.quota new f.1 (ap not named) same refl in
                quota-ClosedBy settle_account _ (settled_last charge later a.quota new) refl named
                  refl s b f (settle-quota charge later claimed_quota _ b e) (rw s (omega arith))
          ]
