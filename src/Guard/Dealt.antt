-- ===== src/Guard/Dealt.antt =====
-- app/resilience.py, `fair_owner_capacity_limits`: what is dealt, seen from the requests.
use mathlib.Core.List.{Perm}
use mathlib.Core.List.Perm
use Prim.Native.Nat.{lt, eq, gt}
use Prim.Native.String.{compare}
use api.Base.{
  ℕ, zero, suc, ◌-◌, ◌≤◌, max, true, false, List, [], ◌∷◌, String, str_eq, ◌≡◌, refl, ap, arith,
  if◌then◌else◌, length, map, ◌⊎◌, inl, inr,
}
use api.Base.Dict.{Dict}
use api.Guard.Fair.{
  Share, insert_share, initial_shares, deal_round, deal, fair_owner_capacity_limits, total, Within,
  Satisfied, deal-Within, deal-total, deal-Finished, initial-Within, initial-total,
}
use api.Guard.Level.{Level, deal-Leveled, initial-Even}

-- What is asked for in the name of an owner; a request for nothing asks for one place.
unfoldable pub named_requests : Dict ℕ → List (String × ℕ)
named_requests [] = []
named_requests ((owner, limit) ∷ rest) =
    let later = named_requests rest in
    if str_eq owner "" then later else (owner, max 1 limit) ∷ later

abbrev pub request_of : Share → String × ℕ
request_of s = (s.owner, s.requested)

round-requests :
    (shares : List Share) (r : ℕ) → map request_of (deal_round shares r).0 ≡ map request_of shares
unfolding deal_round
round-requests [] r = refl
round-requests (s ∷ shares) zero = refl
round-requests (s ∷ shares) (suc r) =
    ground (arith, round-requests shares r, round-requests shares (suc r))

deal-requests :
    (fuel : ℕ) (shares : List Share) (r : ℕ)
    → map request_of (deal fuel shares r).0 ≡ map request_of shares
unfolding deal
deal-requests zero shares r = refl
deal-requests (suc fuel) shares r =
    let dealt = deal_round shares r in
    ground (arith, round-requests shares r, deal-requests fuel dealt.0 dealt.1)

insert-perm :
    (s : Share) (shares : List Share)
    → Perm (map request_of (insert_share s shares)) (request_of s ∷ map request_of shares)
unfolding insert_share
insert-perm s [] = Perm.rfl
insert-perm s (t ∷ shares) =
    elim (compare s.owner t.owner)
      as (λ o.
        Perm
          (map request_of (elim o as (λ _. List Share) [
            | lt ↦ s ∷ t ∷ shares
            | eq ↦ s ∷ t ∷ shares
            | gt ↦ t ∷ insert_share s shares
          ]))
          (request_of s ∷ request_of t ∷ map request_of shares)) [
            | lt ↦ Perm.rfl
            | eq ↦ Perm.rfl
            | gt ↦
                Perm.trans (Perm.cons (request_of t) (insert-perm s shares))
                  (Perm.swap (request_of s) (request_of t) (map request_of shares))
          ]

initial-perm :
    (requested : Dict ℕ)
    → Perm (map request_of (initial_shares requested)) (named_requests requested)
unfolding initial_shares named_requests
initial-perm [] = Perm.rfl
initial-perm ((owner, limit) ∷ rest) =
    let s : Share = record { owner = owner; requested = max 1 limit; limit = 1 } in
    elim (str_eq owner "")
      as (λ b.
        Perm
          (map request_of (if b then initial_shares rest else insert_share s (initial_shares rest)))
          (if b then named_requests rest else (owner, max 1 limit) ∷ named_requests rest)) [
            | true ↦ initial-perm rest
            | false ↦
                Perm.trans (insert-perm s (initial_shares rest))
                  (Perm.cons (owner, max 1 limit) (initial-perm rest))
          ]

insert-length :
    (s : Share) (shares : List Share) → length (insert_share s shares) ≡ suc (length shares)
unfolding insert_share
insert-length s [] = refl
insert-length s (t ∷ shares) =
    elim (compare s.owner t.owner)
      as (λ o.
        length (elim o as (λ _. List Share) [
          | lt ↦ s ∷ t ∷ shares
          | eq ↦ s ∷ t ∷ shares
          | gt ↦ t ∷ insert_share s shares
        ])
        ≡ suc (suc (length shares))) [
          | lt ↦ refl
          | eq ↦ refl
          | gt ↦ ap suc (insert-length s shares)
        ]

initial-length :
    (requested : Dict ℕ) → length (initial_shares requested) ≡ length (named_requests requested)
unfolding initial_shares named_requests
initial-length [] = refl
initial-length ((owner, limit) ∷ rest) =
    let s : Share = record { owner = owner; requested = max 1 limit; limit = 1 } in
    ground (arith, initial-length rest, insert-length s (initial_shares rest))

-- What is to hold of the shares that are dealt: they are those of the named requests, each within its
-- request, of the capacity or one place for each if that is more, and all at one level.
abbrev pub Dealt : Dict ℕ → (capacity : ℕ) → List Share → Type 0
Dealt requested capacity dealt =
    let whole = max capacity (length (named_requests requested)) in
    Perm (map request_of dealt) (named_requests requested)
    × Within dealt
    × (total dealt ≤ whole)
    × ((total dealt ≡ whole) ⊎ Satisfied dealt)
    × ((k : ℕ) × Level k dealt)

-- The shares are those of the named requests, in some order, and a request for nothing counts as one
-- for one place. Each gets at least one place and at most as many as it asked for. All that is dealt is
-- the capacity, or one place for each if that is more; it is less only if everyone has all that was
-- asked for. There is a level such that everyone has as much as was asked for up to that level, or one
-- place more.
pub fair_owner_capacity_limits-Dealt :
    (requested : Dict ℕ) (capacity : ℕ)
    → Dealt requested capacity (fair_owner_capacity_limits requested capacity)
unfolding fair_owner_capacity_limits
fair_owner_capacity_limits-Dealt requested capacity =
    let shares = initial_shares requested in
    let left = capacity - length shares in
    let all = deal-total left shares left in
    let ones = initial-total requested in
    let counted = initial-length requested in
    (
      rw (deal-requests left shares left) (initial-perm requested),
      deal-Within left shares left (initial-Within requested),
      omega (arith, all, ones, counted),
      elim (deal-Finished left shares left (omega arith)) [
        | inl none_left ↦ inl (omega (arith, all, ones, counted, none_left))
        | inr satisfied ↦ inr satisfied
      ],
      deal-Leveled left 1 shares left (initial-Even requested),
    )
