-- ===== src/Guard/Level.antt =====
-- app/resilience.py, `fair_owner_capacity_limits`: the rounds deal to all up to one level.
use Prim.Native.Nat.{lt, eq, gt}
use Prim.Native.String.{compare}
use api.Base.{
  ℕ, zero, suc, ◌+◌, ◌≤◌, min, max, Bool, true, false, List, [], ◌∷◌, str_eq, leb, ◌==◌, ◌≡◌, refl,
  arith, if◌then◌else◌, ◌⊎◌, inl, inr,
}
use api.Base.Dict.{Dict}
use api.Guard.Fair.{Share, insert_share, initial_shares, deal_round, deal}

-- Everybody has as much as was asked for, up to a level that is the same for all, or one more.
abbrev pub Level : ℕ → List Share → Type 0
Level k [] = Unit
Level k (s ∷ shares) =
    (min s.requested k ≤ s.limit) × (s.limit ≤ min s.requested (suc k)) × Level k shares

abbrev pub Even : ℕ → List Share → Type 0
Even k [] = Unit
Even k (s ∷ shares) = (s.limit ≡ min s.requested k) × Even k shares

Even-Level : (k : ℕ) (shares : List Share) → Even k shares → Level k shares
Even-Level k [] h = tt
Even-Level k (s ∷ shares) h = (omega arith, omega arith, Even-Level k shares h.1)

-- A round brings everybody to the next level, unless it is stopped by having nothing left.
abbrev Raised : ℕ → List Share × ℕ → Type 0
Raised k dealt = Even (suc k) dealt.0 ⊎ (dealt.1 ≡ 0) × Level k dealt.0

if-Raised :
    (k : ℕ) (b : Bool) (x y : List Share × ℕ)
    → (b ≡ true → Raised k x)
    → (b ≡ false → Raised k y)
    → Raised k (if b then x else y)
if-Raised k true x y f g = f refl
if-Raised k false x y f g = g refl

cons-Raised :
    (k : ℕ) (s : Share) (dealt : List Share × ℕ)
    → s.limit ≡ min s.requested (suc k)
    → Raised k dealt
    → Raised k (s ∷ dealt.0, dealt.1)
cons-Raised k s dealt e (inl even) = inl (e, even)
cons-Raised k s dealt e (inr (none_left, level)) =
    inr (none_left, (omega arith, omega arith, level))

round-Raised :
    (k : ℕ) (shares : List Share) (r : ℕ) → Even k shares → Raised k (deal_round shares r)
unfolding deal_round
round-Raised k [] r h = inl tt
round-Raised k (s ∷ shares) zero h = inr (refl, Even-Level k (s ∷ shares) h)
round-Raised k (s ∷ shares) (suc r) h =
    let skipped = deal_round shares (suc r) in
    let dealt = deal_round shares r in
    let raised : Share = record s { limit = s.limit + 1 } in
    if-Raised k (leb s.requested s.limit) (s ∷ skipped.0, skipped.1) (raised ∷ dealt.0, dealt.1)
      (λ full. cons-Raised k s skipped (ground arith) (round-Raised k shares (suc r) h.1))
      (λ lacks. cons-Raised k raised dealt (ground arith) (round-Raised k shares r h.1))

abbrev pub Leveled : List Share → Type 0
Leveled shares = (k : ℕ) × Level k shares

if-Leveled :
    (b : Bool) (x y : List Share × ℕ) → Leveled x.0 → Leveled y.0 → Leveled (if b then x else y).0
if-Leveled true x y f g = f
if-Leveled false x y f g = g

deal_none : (fuel : ℕ) (shares : List Share) → (deal fuel shares 0).0 ≡ shares
unfolding deal
deal_none zero shares = refl
deal_none (suc fuel) shares = refl

pub deal-Leveled :
    (fuel k : ℕ) (shares : List Share) (r : ℕ) → Even k shares → Leveled (deal fuel shares r).0
unfolding deal
deal-Leveled zero k shares r h = (k, Even-Level k shares h)
deal-Leveled (suc fuel) k shares r h =
    let dealt = deal_round shares r in
    let stays : Leveled shares = (k, Even-Level k shares h) in
    if-Leveled (r == 0) (shares, 0) _ stays
      (if-Leveled (dealt.1 == r) (shares, r) (deal fuel dealt.0 dealt.1) stays
        (elim (round-Raised k shares r h) as (λ _. Leveled (deal fuel dealt.0 dealt.1).0) [
          | inl even ↦ deal-Leveled fuel (suc k) dealt.0 dealt.1 even
          | inr (none_left, level) ↦ (k, rw (none_left, deal_none fuel dealt.0) level)
        ]))

insert-Even :
    (k : ℕ) (s : Share) (shares : List Share)
    → s.limit ≡ min s.requested k
    → Even k shares
    → Even k (insert_share s shares)
unfolding insert_share
insert-Even k s [] e h = (e, tt)
insert-Even k s (t ∷ shares) e h =
    elim (compare s.owner t.owner)
      as (λ o. Even k (elim o as (λ _. List Share) [
        | lt ↦ s ∷ t ∷ shares
        | eq ↦ s ∷ t ∷ shares
        | gt ↦ t ∷ insert_share s shares
      ])) [ lt ↦ (e, h) | eq ↦ (e, h) | gt ↦ (h.0, insert-Even k s shares e h.1) ]

pub initial-Even : (requested : Dict ℕ) → Even 1 (initial_shares requested)
unfolding initial_shares
initial-Even [] = tt
initial-Even ((owner, limit) ∷ rest) =
    let s : Share = record { owner = owner; requested = max 1 limit; limit = 1 } in
    elim (str_eq owner "")
      as (λ b. Even 1 (if b then initial_shares rest else insert_share s (initial_shares rest))) [
        | true ↦ initial-Even rest
        | false ↦ insert-Even 1 s (initial_shares rest) (omega arith) (initial-Even rest)
      ]
