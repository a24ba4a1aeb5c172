-- ===== src/Memberships/Bought.antt =====
-- app/users.py, `purchase_user_membership`: the memberships after a purchase.
use api.Base.{
  ℕ, max, Bool, true, false, Option, none, some, List, [], ◌∷◌, ◌++◌, String, ◌==◌, ◌≡◌, ◌≢◌, refl,
  arith, if◌then◌else◌, map, All, sym, ◌∙◌, ap, subst,
}
use api.Base.Result.{Result, ok, err}
use api.Tokens.Entry.{Entry}
use api.Tokens.Admin.{Error}
use api.Memberships.State.{
  Membership, UserMemberships, is_active, is_eligible, membership_remaining_seconds, first_active,
  normalize_membership_record, stored_records, legacy_records, sync_membership_state,
}
use api.Memberships.View.{SameAll, count_active, Top}
use api.Memberships.Sync.{Led}
use api.Memberships.Entry.{Shown, sync_membership_state_ends, sync_membership_state-Led}
use api.Memberships.Purchase.{
  Package, Refusal, User, stuck, already_owned, highest_owned, bad_price, unpaid, bought, owns,
  refusal, eligible_memberships, reconcile_membership_concurrency, with_bought, finish_purchase,
  paid_purchase, allowed_purchase, synced_purchase, purchase_user_membership,
}

abbrev normalized : ℕ → List Membership → List Membership
normalized now ms = map (normalize_membership_record now) ms

count-normalized :
    (now : ℕ) (ms : List Membership) (m : Membership)
    → is_active m.status ≡ false
    → count_active (normalized now (ms ++ m ∷ [])) ≡ count_active ms
unfolding count_active normalize_membership_record
count-normalized now [] m off = ground (arith, off)
count-normalized now (n ∷ ms) m off = ground (arith, count-normalized now ms m off)

stored_list :
    (now : ℕ) (old ms : List Membership) (m : Membership)
    → (elim (normalized now (ms ++ m ∷ [])) as (λ _. List Membership) [
      | [] ↦ old
      | n ∷ ns ↦ n ∷ ns
    ])
      ≡ normalized now (ms ++ m ∷ [])
stored_list now old [] m = refl
stored_list now old (n ∷ ms) m = refl

stored-bought :
    (now : ℕ) (e : UserMemberships) (m : Membership)
    → stored_records now (with_bought e m) ≡ normalized now (e.memberships ++ m ∷ [])
unfolding stored_records
stored-bought now e m = stored_list now (legacy_records now e.membership) e.memberships m

last-unfit :
    (now : ℕ) (ms : List Membership) (m : Membership) (ns : List Membership)
    → SameAll now (normalized now (ms ++ m ∷ [])) ns
    → All (λ x. is_eligible now x ≡ false) ns
    → is_eligible now (normalize_membership_record now m) ≡ false
last-unfit now [] m [] s h = elim s [ ]
last-unfit now [] m (n ∷ ns) s h = sym s.0.1 ∙ h.0
last-unfit now (k ∷ ms) m [] s h = elim s [ ]
last-unfit now (k ∷ ms) m (n ∷ ns) s h = last-unfit now ms m ns s.1 h.1

bought-eligible :
    (fresh_id : String) (now : ℕ) (p : Package)
    → is_eligible now (normalize_membership_record now (bought fresh_id now p)) ≡ true
unfolding bought is_eligible membership_remaining_seconds normalize_membership_record
bought-eligible fresh_id now p = ground arith

-- A purchase ends, and one that is not refused: no membership of the package ran, and of the memberships with the new
-- one the best runs, with the time of each as it was.
abbrev pub Bought :
    List Package → String → ℕ → Package → User → Result Refusal (Entry × User) → Type 0
Bought packages fresh_id now p u (err stuck) = ⊥
Bought packages fresh_id now p u (err _) = Unit
Bought packages fresh_id now p u (ok (token, after)) =
    (synced : UserMemberships) × (sync_membership_state now
        (reconcile_membership_concurrency packages u)
      ≡ some synced)
    × (owns p.id (eligible_memberships now synced.memberships) ≡ false)
    × Led now (normalized now (synced.memberships ++ bought fresh_id now p ∷ []))
        after.memberships.memberships
    × (first_active after.memberships.memberships ≢ none)

bought-active :
    (now : ℕ) (ms : List Membership) (m : Membership) (ns : List Membership)
    → is_eligible now (normalize_membership_record now m) ≡ true
    → Led now (normalized now (ms ++ m ∷ [])) ns
    → first_active ns ≢ none
bought-active now ms m ns fit led e =
    let unfit = last-unfit now ms m ns led.0 (subst (Top now ns) e led.1) in
    absurd (ground (arith, unfit, fit))

refusal-owns :
    (offered : List Package) (p : Package) (ms : List Membership)
    → refusal offered p ms ≡ none
    → owns p.id ms ≡ false
unfolding refusal
refusal-owns offered p ms h = ground arith

bought-inactive :
    (fresh_id : String) (now : ℕ) (p : Package) → is_active (bought fresh_id now p).status ≡ false
unfolding bought
bought-inactive fresh_id now p = refl

refusal_known :
    (offered : List Package) (p : Package) (ms : List Membership)
    → refusal offered p ms ≢ some stuck
unfolding refusal
refusal_known offered p ms h = absurd (ground (arith, h))

module _ (packages offered : List Package) (fresh_id : String) (free_limit now : ℕ) (p : Package)
    (u : User) where
  abbrev BoughtBy : Result Refusal (Entry × User) → Type 0
  BoughtBy = Bought packages fresh_id now p u

  module _ (base : ℕ) (synced : UserMemberships)
      (e : sync_membership_state now (reconcile_membership_concurrency packages u) ≡ some synced)
      (shown : Shown now synced) where
    paid-BoughtBy :
        (r : Result Error Entry)
        → refusal offered p (eligible_memberships now synced.memberships) ≡ none
        → BoughtBy (paid_purchase packages offered fresh_id free_limit now p base synced r)
    unfolding paid_purchase finish_purchase
    paid-BoughtBy (err x) free = tt
    paid-BoughtBy (ok paid) free =
        let m = bought fresh_id now p in
        let extended = with_bought synced m in
        let stored = stored-bought now synced m in
        let counted : count_active (stored_records now extended) ≡ count_active synced.memberships =
          ap count_active stored
          ∙ count-normalized now synced.memberships m (bought-inactive fresh_id now p) in
        let done = sync_membership_state-Led now extended (ground (arith, counted, shown.1)) in
        let led : Led now (normalized now (synced.memberships ++ m ∷ [])) done.0.memberships =
          subst (λ l. Led now l done.0.memberships) stored done.2 in
        subst (λ o. BoughtBy (finish_purchase now base paid o)) (sym done.1)
          (
            synced,
            e,
            refusal-owns offered p (eligible_memberships now synced.memberships) free,
            led,
            bought-active now synced.memberships m done.0.memberships
                (bought-eligible fresh_id now p) led,
          )

    if-BoughtBy :
        (b : Bool) (x y : Result Refusal (Entry × User))
        → BoughtBy x
        → BoughtBy y
        → BoughtBy (if b then x else y)
    if-BoughtBy true x y f g = f
    if-BoughtBy false x y f g = g

    allowed-BoughtBy :
        (token : Entry) (o : Option Refusal)
        → refusal offered p (eligible_memberships now synced.memberships) ≡ o
        → BoughtBy (allowed_purchase packages offered fresh_id free_limit now p base token synced o)
    unfolding allowed_purchase
    allowed-BoughtBy token (some already_owned) free = tt
    allowed-BoughtBy token (some highest_owned) free = tt
    allowed-BoughtBy token (some bad_price) free = tt
    allowed-BoughtBy token (some (unpaid x)) free = tt
    allowed-BoughtBy token (some stuck) free =
        refusal_known offered p (eligible_memberships now synced.memberships) free
    allowed-BoughtBy token none free =
        if-BoughtBy (p.cost_units == 0) (err bad_price) _ tt (paid-BoughtBy _ free)

  -- A purchase ends. Where it is not refused, no membership of the package ran; of the memberships with the new one
  -- each keeps its time and the best runs, so one runs.
  pub purchase_user_membership-Bought :
      (token : Entry)
      → Bought packages fresh_id now p u
          (purchase_user_membership packages offered fresh_id free_limit now p token u)
  unfolding purchase_user_membership synced_purchase
  purchase_user_membership-Bought token =
      let base =
        max 1 (if u.base_concurrency == 0 then token.concurrency else u.base_concurrency) in
      let done = sync_membership_state_ends now (reconcile_membership_concurrency packages u) in
      subst
        (λ o. BoughtBy (synced_purchase packages offered fresh_id free_limit now p base token o))
        (sym done.1)
        (allowed-BoughtBy base done.0 done.1 done.2 token
          (refusal offered p (eligible_memberships now done.0.memberships)) refl)
