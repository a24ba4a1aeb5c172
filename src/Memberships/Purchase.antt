-- ===== src/Memberships/Purchase.antt =====
-- app/users.py, `purchase_user_membership`: a membership is paid for from the points of the user's
-- token and put with the others. `packages` is the whole catalogue, `offered` the enabled part of it.
use api.Base.{
  ℕ, ◌*◌, max, min, Bool, true, false, ◌&&◌, ◌||◌, Option, none, some, List, [], ◌∷◌, ◌++◌, String,
  str_eq, ltb, leb, ◌==◌, if◌then◌else◌, map,
}
use api.Base.Result.{Result, ok, err}
use api.Tokens.Entry.{Entry}
use api.Tokens.Admin.{Update, purchase_entry, update_entry}
use api.Tokens.Admin as Admin
use api.Memberships.State.{
  Membership, UserMemberships, Current, paused, price_units, is_eligible, sync_membership_state,
}

pub record Package : Type 0 where
  pub id : String
  pub name : String
  pub cost_units : ℕ
  pub duration_days : ℕ
  pub concurrency : ℕ
  pub bonus_free_uses : ℕ
  pub task_discount_units : ℕ

pub data Refusal : Type 0 where
  already_owned highest_owned bad_price : Refusal
  unpaid : Admin.Error → Refusal
  stuck : Refusal

-- The part of a user that memberships change; `migrated` is `membership_concurrency_mode`, and a base
-- of 0 is an absent one.
pub record User : Type 0 where
  pub memberships : UserMemberships
  pub migrated : Bool
  pub base_concurrency : ℕ
  pub effective_concurrency : ℕ
  pub updated_at : ℕ

abbrev pub clamped : ℕ → ℕ
clamped n = max 1 (min 100 n)

-- `packages.get(...)`, of which the last of an identifier counts.
unfoldable pub package_concurrency : String → List Package → Option ℕ
package_concurrency id [] = none
package_concurrency id (p ∷ packages) = elim (package_concurrency id packages) as (λ _. Option ℕ) [
  | none ↦ if str_eq p.id id then some (clamped p.concurrency) else none
  | some n ↦ some n
]

unfoldable pub reconcile_concurrency : List Package → Membership → Membership
reconcile_concurrency packages m =
    elim (package_concurrency m.package_id packages) as (λ _. Membership) [
      | none ↦ m
      | some n ↦ record m { concurrency = n }
    ]

-- `_reconcile_membership_concurrency`
unfoldable pub reconcile_membership_concurrency : List Package → User → UserMemberships
reconcile_membership_concurrency packages u =
    if u.migrated then u.memberships else record (u.memberships) {
      memberships = map (reconcile_concurrency packages) u.memberships.memberships;
    }

unfoldable pub eligible_memberships : ℕ → List Membership → List Membership
eligible_memberships now [] = []
eligible_memberships now (m ∷ ms) =
    let rest = eligible_memberships now ms in if is_eligible now m then m ∷ rest else rest

unfoldable pub owns : String → List Membership → Bool
owns id [] = false
owns id (m ∷ ms) = str_eq m.package_id id || owns id ms

unfoldable pub highest_price : List ℕ → ℕ
highest_price [] = 0
highest_price (n ∷ rest) = max n (highest_price rest)

-- A price of 0, which `points_to_units` refuses.
unfoldable pub has_free : List ℕ → Bool
has_free [] = false
has_free (n ∷ rest) = n == 0 || has_free rest

-- Whether the purchase is refused, for the memberships that still run.
unfoldable pub refusal : List Package → Package → List Membership → Option Refusal
refusal offered p running =
    let top = highest_price (map (λ q. q.cost_units) offered) in
    let owned = highest_price (map price_units running) in
    if owns p.id running
    then some already_owned
    else if has_free (map (λ q. q.cost_units) offered)
    then some bad_price
    else if leb top owned && ltb 0 top
    then some highest_owned
    else none

unfoldable pub bought : (fresh_id : String) → ℕ → Package → Membership
bought fresh_id now p = record {
  id = fresh_id;
  package_id = p.id;
  name = p.name;
  cost_units = p.cost_units;
  duration_days = p.duration_days;
  remaining_seconds = max 1 p.duration_days * 86400;
  status = paused;
  activated_at = 0;
  purchased_at = now;
  concurrency = clamped p.concurrency;
  bonus_free_uses = p.bonus_free_uses;
  task_discount_units = p.task_discount_units;
}

-- `int((membership or {}).get("effective_concurrency") or base_concurrency)`
abbrev effective_or : Option Current → ℕ → ℕ
effective_or none base = base
effective_or (some c) base = if c.effective_concurrency == 0 then base else c.effective_concurrency

abbrev with_concurrency : ℕ → ℕ → Entry → Entry
with_concurrency n now token =
    update_entry
      (record {
        limit = none;
        concurrency = some n;
        remote_generation_limit = none;
        task_retention_days = none;
        remark = none;
        billing_priority = none;
      })
      now token

-- The user and the token once the memberships with the new one are synchronized.
unfoldable pub finish_purchase :
    ℕ → (base : ℕ) → Entry → Option UserMemberships → Result Refusal (Entry × User)
finish_purchase now base paid none = err stuck
finish_purchase now base paid (some after) =
    let effective = effective_or after.membership base in
    ok (
      with_concurrency effective now paid,
      record {
        memberships = after;
        migrated = true;
        base_concurrency = base;
        effective_concurrency = effective;
        updated_at = now;
      },
    )

abbrev pub with_bought : UserMemberships → Membership → UserMemberships
with_bought synced m = record synced { memberships = synced.memberships ++ m ∷ [] }

module _ (packages offered : List Package) (fresh_id : String) (free_limit now : ℕ)
    (p : Package) where
  unfoldable pub paid_purchase :
      (base : ℕ) → UserMemberships → Result Admin.Error Entry → Result Refusal (Entry × User)
  paid_purchase base synced (err e) = err (unpaid e)
  paid_purchase base synced (ok paid) =
      finish_purchase now base paid
        (sync_membership_state now (with_bought synced (bought fresh_id now p)))

  unfoldable pub allowed_purchase :
      (base : ℕ) → Entry → UserMemberships → Option Refusal → Result Refusal (Entry × User)
  allowed_purchase base token synced (some r) = err r
  allowed_purchase base token synced none =
      if p.cost_units == 0
      then err bad_price
      else paid_purchase base synced (
          purchase_entry p.cost_units p.bonus_free_uses (clamped p.concurrency) free_limit now
            token)

  unfoldable pub synced_purchase :
      (base : ℕ) → Entry → Option UserMemberships → Result Refusal (Entry × User)
  synced_purchase base token none = err stuck
  synced_purchase base token (some synced) =
      allowed_purchase base token synced
        (refusal offered p (eligible_memberships now synced.memberships))

  -- With the token of the user, which is found; where the call raises, neither is written.
  unfoldable pub purchase_user_membership : Entry → User → Result Refusal (Entry × User)
  purchase_user_membership token u =
      synced_purchase
        (max 1 (if u.base_concurrency == 0 then token.concurrency else u.base_concurrency)) token
        (sync_membership_state now (reconcile_membership_concurrency packages u))
