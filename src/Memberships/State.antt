-- ===== src/Memberships/State.antt =====
-- app/users.py, `_sync_membership_state`: which of the memberships of a user runs. Times are whole
-- seconds, 0 for the empty text.
use api.Base.{
  ℕ, zero, suc, ◌+◌, ◌-◌, ◌*◌, ◌/◌, ◌%◌, max, min, Bool, true, false, ◌&&◌, ◌||◌, not, Option, none,
  some, List, [], ◌∷◌, String, str_eq, ltb, ◌==◌, if◌then◌else◌, length, set, map,
}

pub data Status : Type 0 where
  active paused expired : Status

-- `cost_units` and `task_discount_units` are the points in units.
pub record Membership : Type 0 where
  pub id : String
  pub package_id : String
  pub name : String
  pub cost_units : ℕ
  pub duration_days : ℕ
  pub remaining_seconds : ℕ
  pub status : Status
  pub activated_at : ℕ
  pub purchased_at : ℕ
  pub concurrency : ℕ
  pub bonus_free_uses : ℕ
  pub task_discount_units : ℕ

abbrev pub is_active : Status → Bool
is_active active = true
is_active _ = false

abbrev pub is_expired : Status → Bool
is_expired expired = true
is_expired _ = false

-- `_membership_remaining_seconds`
unfoldable pub membership_remaining_seconds : ℕ → Membership → ℕ
membership_remaining_seconds now m =
    if is_active m.status && not (m.activated_at == 0)
    then m.remaining_seconds - (now - m.activated_at)
    else m.remaining_seconds

-- `_membership_rank`: a price of 0 counts as one unit.
abbrev pub price_units : Membership → ℕ
price_units m = max 1 m.cost_units

-- Whether the first ranks strictly above the second.
unfoldable pub is_above : Membership → Membership → Bool
is_above m n =
    ltb (price_units n) (price_units m)
    || price_units n == price_units m && ltb n.purchased_at m.purchased_at

unfoldable pub normalize_membership_record : ℕ → Membership → Membership
normalize_membership_record now m = record m {
  cost_units = price_units m;
  duration_days = max 1 m.duration_days;
  purchased_at = if m.purchased_at == 0 then now else m.purchased_at;
}

unfoldable pub is_eligible : ℕ → Membership → Bool
is_eligible now m = not (is_expired m.status) && ltb 0 (membership_remaining_seconds now m)

-- The first active membership, with its place.
unfoldable pub first_active : List Membership → Option (ℕ × Membership)
first_active [] = none
first_active (m ∷ ms) =
    let later = elim (first_active ms) as (λ _. Option (ℕ × Membership)) [
      | none ↦ none
      | some (i, n) ↦ some (suc i, n)
    ] in
    if is_active m.status then some (0, m) else later

-- The eligible one of the highest rank, the first of them, with its place.
unfoldable pub highest : ℕ → List Membership → Option (ℕ × Membership)
highest now [] = none
highest now (m ∷ ms) = elim (highest now ms) as (λ _. Option (ℕ × Membership)) [
  | none ↦ if is_eligible now m then some (0, m) else none
  | some (i, n) ↦ if is_eligible now m && not (is_above n m) then some (0, m) else some (suc i, n)
]

abbrev pub expire : Membership → Membership
expire m = record m { remaining_seconds = 0; status = expired; activated_at = 0 }

abbrev pub pause : ℕ → Membership → Membership
pause now m = record m {
  remaining_seconds = membership_remaining_seconds now m;
  status = paused;
  activated_at = 0;
}

abbrev pub activate : ℕ → Membership → Membership
activate now m = record m { status = active; activated_at = now }

-- The end of the loop's body, where the active one has time left.
unfoldable pub choose : ℕ → Option (ℕ × Membership) → List Membership → List Membership
choose now running ms = elim (highest now ms) as (λ _. List Membership) [
  | none ↦ ms
  | some (i, h) ↦ elim running as (λ _. List Membership) [
    | none ↦ set ms i (activate now h)
    | some (j, a) ↦ if i == j then ms else set (set ms j (pause now a)) i (activate now h)
  ]
]

-- The `while` loop, on fuel.
unfoldable pub sync_loop : ℕ → ℕ → List Membership → Option (List Membership)
sync_loop zero now ms = none
sync_loop (suc fuel) now ms = elim (first_active ms) as (λ _. Option (List Membership)) [
  | none ↦ some (choose now none ms)
  | some (j, a) ↦
      let again = sync_loop fuel now (set ms j (expire a)) in
      if membership_remaining_seconds now a == 0 then again else some (choose now (some (j, a)) ms)
]

-- Every membership but the first active one and those that expired is paused.
unfoldable pub pause_others : Bool → List Membership → List Membership
pause_others seen [] = []
pause_others seen (m ∷ ms) =
    let is_first = is_active m.status && not seen in
    let rest = pause_others (seen || is_active m.status) ms in
    if is_first || is_expired m.status
    then m ∷ rest
    else record m { status = paused; activated_at = 0 } ∷ rest

-- `entry["memberships"]` after the call, for records that are normalized; `none` if the loop goes on.
unfoldable pub sync_memberships : ℕ → List Membership → Option (List Membership)
sync_memberships now ms =
    elim (sync_loop (suc (length ms)) now ms) as (λ _. Option (List Membership)) [
      | none ↦ none
      | some chosen ↦ some (pause_others false chosen)
    ]

-- `_membership_concurrency`
abbrev pub membership_concurrency : Membership → ℕ
membership_concurrency m = max 1 (min 100 m.concurrency)

-- `entry["membership"]`
pub record Current : Type 0 where
  pub membership : Membership
  pub expires_at : ℕ
  pub effective_concurrency : ℕ
  pub purchased_package_ids : List String

unfoldable pub purchased_packages : List Membership → List String
purchased_packages [] = []
purchased_packages (m ∷ ms) =
    let rest = purchased_packages ms in
    if is_expired m.status || str_eq m.package_id "" then rest else m.package_id ∷ rest

abbrev pub current_of : ℕ → List Membership → Option Current
current_of now ms = elim (first_active ms) as (λ _. Option Current) [
  | none ↦ none
  | some (i, m) ↦ some (record {
    membership = m;
    expires_at = (if m.activated_at == 0 then now else m.activated_at) + m.remaining_seconds;
    effective_concurrency = membership_concurrency m;
    purchased_package_ids = purchased_packages ms;
  })
]

-- `round(seconds / 86400)`, of which a half goes to the even day.
abbrev rounded_days : ℕ → ℕ
rounded_days seconds =
    let days = seconds / 86400 in
    let rest = seconds % 86400 * 2 in
    if ltb rest 86400 then days else if ltb 86400 rest then days + 1 else days + days % 2

-- The record of an entry that has only the one membership of an older version.
unfoldable pub legacy_records : ℕ → Option Current → List Membership
unfolding normalize_membership_record
legacy_records now none = []
legacy_records now (some old) =
    let m = old.membership in
    let left = old.expires_at - now in
    normalize_membership_record now (record m {
      remaining_seconds = left;
      duration_days =
          max 1 (if m.duration_days == 0 then max 1 (rounded_days left) else m.duration_days);
      status = if ltb 0 left then active else expired;
      activated_at = if ltb 0 left then now else 0;
    })
    ∷ []

pub record UserMemberships : Type 0 where
  pub memberships : List Membership
  pub membership : Option Current

unfoldable pub stored_records : ℕ → UserMemberships → List Membership
stored_records now entry =
    elim (map (normalize_membership_record now) entry.memberships) as (λ _. List Membership) [
      | [] ↦ legacy_records now entry.membership
      | m ∷ ms ↦ m ∷ ms
    ]

unfoldable pub sync_membership_state : ℕ → UserMemberships → Option UserMemberships
sync_membership_state now entry =
    elim (sync_memberships now (stored_records now entry)) as (λ _. Option UserMemberships) [
      | none ↦ none
      | some ms ↦ some (record { memberships = ms; membership = current_of now ms })
    ]
