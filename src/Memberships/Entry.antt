-- ===== src/Memberships/Entry.antt =====
-- app/users.py, `_sync_membership_state`: the entry of a user after the call.
use api.Base.{ℕ, ◌≤◌, Option, none, some, List, ◌≡◌, refl, arith, sym, subst}
use api.Memberships.State.{
  Membership, UserMemberships, current_of, stored_records, sync_memberships, sync_membership_state,
}
use api.Memberships.View.{count_active}
use api.Memberships.Sync.{Led}
use api.Memberships.Loop.{Synced, sync_memberships-Synced}

-- The memberships that an entry shows after the call, of which one at most is active.
abbrev pub Shown : ℕ → UserMemberships → Type 0
Shown now after =
    (after.membership ≡ current_of now after.memberships) × (count_active after.memberships ≤ 1)

entry-of :
    (now : ℕ) (entry : UserMemberships) (o : Option (List Membership))
    → Synced now (stored_records now entry) o
    → (after : UserMemberships) × ((elim o as (λ _. Option UserMemberships) [
      | none ↦ none
      | some ms ↦ some (record { memberships = ms; membership = current_of now ms })
    ])
        ≡ some after)
      × Shown now after
      × (count_active (stored_records now entry) ≤ 1
          → Led now (stored_records now entry) after.memberships)
entry-of now entry none (ns, e, one, led) = absurd (ground (arith, e))
entry-of now entry (some ms) (ns, e, one, led) =
    let same : ms ≡ ns = ground (arith, e) in
    (
      record { memberships = ms; membership = current_of now ms },
      refl,
      (refl, subst (λ l. count_active l ≤ 1) (sym same) one),
      λ k. subst (Led now (stored_records now entry)) (sym same) (led k),
    )

-- The call ends for every entry. Afterwards at most one membership is active, and it is the one that the
-- entry shows.
pub sync_membership_state_ends :
    (now : ℕ) (entry : UserMemberships)
    → (after : UserMemberships) × (sync_membership_state now entry ≡ some after) × Shown now after
unfolding sync_membership_state
sync_membership_state_ends now entry =
    let done =
      entry-of now entry (sync_memberships now (stored_records now entry))
        (sync_memberships-Synced now (stored_records now entry)) in
    (done.0, done.1, done.2)

-- If at most one membership is active before the call, every membership keeps the time that it has left,
-- its rank and whether it may run; the active one may run afterwards and none that may run ranks above
-- it; and if none is active, none may run.
pub sync_membership_state-Led :
    (now : ℕ) (entry : UserMemberships)
    → count_active (stored_records now entry) ≤ 1
    → (after : UserMemberships) × (sync_membership_state now entry ≡ some after)
      × Led now (stored_records now entry) after.memberships
unfolding sync_membership_state
sync_membership_state-Led now entry one =
    let done =
      entry-of now entry (sync_memberships now (stored_records now entry))
        (sync_memberships-Synced now (stored_records now entry)) in
    (done.0, done.1, done.3 one)
