-- ===== src/Tokens/Reservations.antt =====
-- app/temp_access.py, `_prune_reservations`: the open reservations of an entry and what they are worth.
use api.Base.{eq_iff, ℕ, zero, suc, ◌+◌, ◌≡◌, refl, arith, [], ◌∷◌, ◌++◌, none, some, String, take}
use api.Base.Dict.{Dict, lookup, insert, IsDict, lookup-append_left, lookup-append_right}
use api.Tokens.Entry.{
  Reservation, reserved, refunded, Entry, active_reservations, closed_reservations, insert_closed,
  sort_closed, prune_reservations,
}

abbrev pub AllClosed : Dict Reservation → Type 0
AllClosed [] = Unit
AllClosed ((k, r) ∷ d) = (r.status ≡ refunded) × AllClosed d

closed_reservations-AllClosed : (d : Dict Reservation) → AllClosed (closed_reservations d)
unfolding closed_reservations
closed_reservations-AllClosed [] = tt
closed_reservations-AllClosed ((k, r) ∷ d) = ground (arith, closed_reservations-AllClosed d)

insert_closed-AllClosed :
    (x : String × Reservation) (d : Dict Reservation)
    → x.1.status ≡ refunded
    → AllClosed d
    → AllClosed (insert_closed x d)
unfolding insert_closed
insert_closed-AllClosed x [] h a = (h, tt)
insert_closed-AllClosed x (y ∷ d) h a = ground (arith, insert_closed-AllClosed x d h a.1)

sort_closed-AllClosed : (d : Dict Reservation) → AllClosed d → AllClosed (sort_closed d)
unfolding sort_closed
sort_closed-AllClosed [] a = tt
sort_closed-AllClosed (x ∷ d) a =
    insert_closed-AllClosed x (sort_closed d) a.0 (sort_closed-AllClosed d a.1)

take-AllClosed : (n : ℕ) (d : Dict Reservation) → AllClosed d → AllClosed (take n d)
take-AllClosed zero d a = tt
take-AllClosed (suc n) [] a = tt
take-AllClosed (suc n) (x ∷ d) a = (a.0, take-AllClosed n d a.1)

-- The closed reservations that pruning keeps.
abbrev pub kept_closed : Dict Reservation → ℕ → Dict Reservation
kept_closed d n = take n (sort_closed (closed_reservations d))

kept_closed-AllClosed : (d : Dict Reservation) (n : ℕ) → AllClosed (kept_closed d n)
kept_closed-AllClosed d n =
    take-AllClosed n _ (sort_closed-AllClosed _ (closed_reservations-AllClosed d))

module _ (value : Reservation → ℕ) where
  abbrev pub open_value : Reservation → ℕ
  open_value r = elim (r.status) [ reserved ↦ value r | refunded ↦ 0 ]

  -- The worth of the open reservations.
  unfoldable pub open_total : Dict Reservation → ℕ
  open_total [] = 0
  open_total ((k, r) ∷ d) = open_value r + open_total d

  open_total-append : (c d : Dict Reservation) → open_total (c ++ d) ≡ open_total c + open_total d
  unfolding open_total
  open_total-append [] d = omega arith
  open_total-append (x ∷ c) d = omega (arith, open_total-append c d)

  open_total-AllClosed : (d : Dict Reservation) → AllClosed d → open_total d ≡ 0
  unfolding open_total
  open_total-AllClosed [] a = refl
  open_total-AllClosed ((k, r) ∷ d) a = ground (arith, open_total-AllClosed d a.1)

  open_total-active : (d : Dict Reservation) → open_total (active_reservations d) ≡ open_total d
  unfolding open_total active_reservations
  open_total-active [] = refl
  open_total-active ((k, r) ∷ d) = ground (arith, open_total-active d)

  pub open_total-prune :
      (e : Entry) (n : ℕ)
      → open_total (prune_reservations e n).reservations ≡ open_total e.reservations
  unfolding prune_reservations
  open_total-prune e n =
      let d = e.reservations in
      ground (
        arith,
        open_total-append (active_reservations d) (kept_closed d n),
        open_total-active d,
        open_total-AllClosed (kept_closed d n) (kept_closed-AllClosed d n),
      )

  pub open_total-insert_new :
      (k : String) (r : Reservation) (d : Dict Reservation)
      → lookup k d ≡ none
      → open_total (insert k r d) ≡ open_total d + open_value r
  unfolding open_total lookup insert
  open_total-insert_new k r [] h = omega arith
  open_total-insert_new k r ((j, s) ∷ d) h = ground (arith, open_total-insert_new k r d)

  pub open_total-insert :
      (k : String) (r old : Reservation) (d : Dict Reservation)
      → lookup k d ≡ some old
      → open_total (insert k r d) + open_value old ≡ open_total d + open_value r
  unfolding open_total lookup insert
  open_total-insert k r old [] h = cc
  open_total-insert k r old ((j, s) ∷ d) h = ground (arith, open_total-insert k r old d)

lookup-active :
    (k : String) (r : Reservation) (d : Dict Reservation)
    → lookup k d ≡ some r
    → r.status ≡ reserved
    → lookup k (active_reservations d) ≡ some r
unfolding lookup active_reservations
lookup-active k r [] h o = cc
lookup-active k r ((j, s) ∷ d) h o = ground (arith, lookup-active k r d, eq_iff j k)

lookup-active_none :
    (k : String) (d : Dict Reservation)
    → lookup k d ≡ none
    → lookup k (active_reservations d) ≡ none
unfolding lookup active_reservations
lookup-active_none k [] h = refl
lookup-active_none k ((j, s) ∷ d) h = ground (arith, lookup-active_none k d)

lookup-active_closed :
    (k : String) (r : Reservation) (d : Dict Reservation)
    → IsDict d
    → lookup k d ≡ some r
    → r.status ≡ refunded
    → lookup k (active_reservations d) ≡ none
unfolding lookup active_reservations
lookup-active_closed k r [] u h o = cc
lookup-active_closed k r ((j, s) ∷ d) u h o =
    ground (arith, lookup-active_closed k r d u.1, lookup-active_none k d, eq_iff j k)

AllClosed-lookup :
    (k : String) (r : Reservation) (d : Dict Reservation)
    → AllClosed d
    → lookup k d ≡ some r
    → r.status ≡ refunded
unfolding lookup
AllClosed-lookup k r [] a h = cc
AllClosed-lookup k r ((j, s) ∷ d) a h = ground (arith, AllClosed-lookup k r d a.1)

-- An open reservation survives pruning.
pub prune-lookup_open :
    (k : String) (r : Reservation) (e : Entry) (n : ℕ)
    → lookup k e.reservations ≡ some r
    → r.status ≡ reserved
    → lookup k (prune_reservations e n).reservations ≡ some r
unfolding prune_reservations
prune-lookup_open k r e n h o =
    let d = e.reservations in
    ground (
      arith,
      lookup-active k r d h o,
      lookup-append_left k r (active_reservations d) (kept_closed d n),
    )

-- A closed one is kept as closed or forgotten.
pub prune-lookup_closed :
    (k : String) (r s : Reservation) (e : Entry) (n : ℕ)
    → IsDict e.reservations
    → lookup k e.reservations ≡ some r
    → r.status ≡ refunded
    → lookup k (prune_reservations e n).reservations ≡ some s
    → s.status ≡ refunded
unfolding prune_reservations
prune-lookup_closed k r s e n u h o found =
    let d = e.reservations in
    ground (
      arith,
      lookup-active_closed k r d u h o,
      lookup-append_right k (active_reservations d) (kept_closed d n),
      AllClosed-lookup k s (kept_closed d n) (kept_closed-AllClosed d n),
    )

-- Pruning touches nothing else.
pub prune_fields :
    (e : Entry) (n : ℕ)
    → let p = prune_reservations e n in
      (p.credit_units ≡ e.credit_units)
      × (p.video_quota_units ≡ e.video_quota_units)
      × (p.free_remaining ≡ e.free_remaining)
      × (p.billing_version ≡ e.billing_version)
      × (p.billing_priority ≡ e.billing_priority)
unfolding prune_reservations
prune_fields e n = ground arith
