-- ===== src/Guard/Fair.antt =====
-- app/resilience.py, `fair_owner_capacity_limits`: a capacity dealt out to owners in rounds.
use Prim.Native.Nat.{lt, eq, gt}
use Prim.Native.String.{compare}
use api.Base.{
  ℕ, zero, suc, ◌+◌, ◌-◌, ◌≤◌, ◌<◌, max, Bool, true, false, List, [], ◌∷◌, String, str_eq, leb,
  ◌==◌, ◌≡◌, refl, arith, if◌then◌else◌, length, ◌⊎◌, inl, inr, Bool-cases,
}
use api.Base.Dict.{Dict}

-- An owner with what it asked for and what it has been dealt.
pub record Share : Type 0 where
  pub owner : String
  pub requested : ℕ
  pub limit : ℕ

-- The owners by name, each with one place; an owner without a name is left out.
unfoldable pub insert_share : Share → List Share → List Share
insert_share s [] = s ∷ []
insert_share s (t ∷ rest) =
    let later = insert_share s rest in
    elim (compare s.owner t.owner) as (λ _. List Share) [
      | lt ↦ s ∷ t ∷ rest
      | eq ↦ s ∷ t ∷ rest
      | gt ↦ t ∷ later
    ]

unfoldable pub initial_shares : Dict ℕ → List Share
unfolding insert_share
initial_shares [] = []
initial_shares ((owner, limit) ∷ rest) =
    let later = initial_shares rest in
    if str_eq owner ""
    then later
    else insert_share (record { owner = owner; requested = max 1 limit; limit = 1 }) later

-- One pass of the `for` loop, which ends when nothing remains.
unfoldable pub deal_round : List Share → ℕ → List Share × ℕ
deal_round [] remaining = ([], remaining)
deal_round (s ∷ rest) zero = (s ∷ rest, 0)
deal_round (s ∷ rest) (suc left) =
    let skipped = deal_round rest (suc left) in
    let dealt = deal_round rest left in
    if leb s.requested s.limit
    then (s ∷ skipped.0, skipped.1)
    else (record s { limit = s.limit + 1 } ∷ dealt.0, dealt.1)

-- The `while` loop: it ends when nothing remains or a round deals nothing.
unfoldable pub deal : ℕ → List Share → ℕ → List Share × ℕ
unfolding deal_round
deal zero shares remaining = (shares, remaining)
deal (suc fuel) shares remaining =
    let dealt = deal_round shares remaining in
    let rest = deal fuel dealt.0 dealt.1 in
    if remaining == 0
    then (shares, 0)
    else if dealt.1 == remaining
    then (shares, remaining)
    else rest

unfoldable pub fair_owner_capacity_limits : Dict ℕ → ℕ → List Share
unfolding initial_shares deal
fair_owner_capacity_limits requested capacity =
    let shares = initial_shares requested in
    let remaining = capacity - length shares in (deal remaining shares remaining).0

-- What is dealt in all.
abbrev pub total : List Share → ℕ
total [] = 0
total (s ∷ shares) = s.limit + total shares

-- Nobody has more than was asked for, and everybody has a place.
abbrev pub Within : List Share → Type 0
Within [] = Unit
Within (s ∷ shares) = (1 ≤ s.limit) × (s.limit ≤ s.requested) × Within shares

abbrev pub Satisfied : List Share → Type 0
Satisfied [] = Unit
Satisfied (s ∷ shares) = (s.requested ≤ s.limit) × Satisfied shares

round-total :
    (shares : List Share) (r : ℕ)
    → let dealt = deal_round shares r in total dealt.0 + dealt.1 ≡ total shares + r
unfolding deal_round
round-total [] r = refl
round-total (s ∷ shares) zero = refl
round-total (s ∷ shares) (suc r) = ground (arith, round-total shares r, round-total shares (suc r))

if-Within :
    (b : Bool) (x y : List Share × ℕ)
    → (b ≡ true → Within x.0)
    → (b ≡ false → Within y.0)
    → Within (if b then x else y).0
if-Within true x y f g = f refl
if-Within false x y f g = g refl

round-Within : (shares : List Share) (r : ℕ) → Within shares → Within (deal_round shares r).0
unfolding deal_round
round-Within [] r h = tt
round-Within (s ∷ shares) zero h = h
round-Within (s ∷ shares) (suc r) h =
    let skipped = deal_round shares (suc r) in
    let dealt = deal_round shares r in
    if-Within (leb s.requested s.limit) (s ∷ skipped.0, skipped.1)
      (record s { limit = s.limit + 1 } ∷ dealt.0, dealt.1)
      (λ _. (h.0, h.1, round-Within shares (suc r) h.2))
      (λ lacks. (omega arith, ground arith, round-Within shares r h.2))

round-le : (shares : List Share) (r : ℕ) → (deal_round shares r).1 ≤ r
unfolding deal_round
round-le [] r = omega arith
round-le (s ∷ shares) zero = omega arith
round-le (s ∷ shares) (suc r) = ground (arith, round-le shares r, round-le shares (suc r))

round-progress :
    (shares : List Share) (r : ℕ)
    → 0 < r
    → ((deal_round shares r).1 < r) ⊎ ((deal_round shares r).1 ≡ r) × Satisfied shares
unfolding deal_round
round-progress [] r h = inr (refl, tt)
round-progress (s ∷ shares) zero h = ground arith
round-progress (s ∷ shares) (suc r) h = elim (Bool-cases (leb s.requested s.limit)) [
  | inl full ↦ elim (round-progress shares (suc r) h) [
    | inl less ↦ inl (ground arith)
    | inr (same, satisfied) ↦ inr (ground arith, (ground arith, satisfied))
  ]
  | inr lacks ↦ inl (ground (arith, round-le shares r))
]

pub deal-Within :
    (fuel : ℕ) (shares : List Share) (r : ℕ) → Within shares → Within (deal fuel shares r).0
unfolding deal
deal-Within zero shares r h = h
deal-Within (suc fuel) shares r h =
    let dealt = deal_round shares r in
    if-Within (r == 0) (shares, 0) _ (λ _. h)
      (λ _.
        if-Within (dealt.1 == r) (shares, r) (deal fuel dealt.0 dealt.1) (λ _. h)
          (λ _. deal-Within fuel dealt.0 dealt.1 (round-Within shares r h)))

pub deal-total :
    (fuel : ℕ) (shares : List Share) (r : ℕ)
    → let dealt = deal fuel shares r in total dealt.0 + dealt.1 ≡ total shares + r
unfolding deal
deal-total zero shares r = refl
deal-total (suc fuel) shares r =
    let dealt = deal_round shares r in
    ground (arith, round-total shares r, deal-total fuel dealt.0 dealt.1)

-- Nothing is left, or nobody wants more.
abbrev pub Finished : List Share × ℕ → Type 0
Finished dealt = (dealt.1 ≡ 0) ⊎ Satisfied dealt.0

if-Finished :
    (b : Bool) (x y : List Share × ℕ)
    → (b ≡ true → Finished x)
    → (b ≡ false → Finished y)
    → Finished (if b then x else y)
if-Finished true x y f g = f refl
if-Finished false x y f g = g refl

stuck-Satisfied :
    (shares : List Share) (r : ℕ) → 0 < r → (deal_round shares r).1 ≡ r → Satisfied shares
stuck-Satisfied shares r h same = elim (round-progress shares r h) as (λ _. Satisfied shares) [
  | inl less ↦ absurd (omega (arith, less, same))
  | inr (_, satisfied) ↦ satisfied
]

pub deal-Finished :
    (fuel : ℕ) (shares : List Share) (r : ℕ) → r ≤ fuel → Finished (deal fuel shares r)
unfolding deal
deal-Finished zero shares r h = inl (omega arith)
deal-Finished (suc fuel) shares r h =
    let dealt = deal_round shares r in
    if-Finished (r == 0) (shares, 0) _ (λ _. inl refl)
      (λ some_left.
        if-Finished (dealt.1 == r) (shares, r) (deal fuel dealt.0 dealt.1)
          (λ same. inr (stuck-Satisfied shares r (ground arith) (ground arith)))
          (λ less. deal-Finished fuel dealt.0 dealt.1 (ground (arith, round-le shares r))))

insert-Within :
    (s : Share) (shares : List Share)
    → 1 ≤ s.limit
    → s.limit ≤ s.requested
    → Within shares
    → Within (insert_share s shares)
unfolding insert_share
insert-Within s [] l r h = (l, r, tt)
insert-Within s (t ∷ shares) l r h =
    elim (compare s.owner t.owner)
      as (λ o. Within (elim o as (λ _. List Share) [
        | lt ↦ s ∷ t ∷ shares
        | eq ↦ s ∷ t ∷ shares
        | gt ↦ t ∷ insert_share s shares
      ])) [ lt ↦ (l, r, h) | eq ↦ (l, r, h) | gt ↦ (h.0, h.1, insert-Within s shares l r h.2) ]

insert-total :
    (s : Share) (shares : List Share)
    → total (insert_share s shares) + length shares + 1
      ≡ s.limit + total shares + length (insert_share s shares)
unfolding insert_share
insert-total s [] = omega arith
insert-total s (t ∷ shares) =
    elim (compare s.owner t.owner)
      as (λ o.
        let inserted = elim o as (λ _. List Share) [
          | lt ↦ s ∷ t ∷ shares
          | eq ↦ s ∷ t ∷ shares
          | gt ↦ t ∷ insert_share s shares
        ] in
        total inserted + length (t ∷ shares) + 1 ≡ s.limit + total (t ∷ shares) + length inserted) [
          | lt ↦ omega arith
          | eq ↦ omega arith
          | gt ↦ omega (arith, insert-total s shares)
        ]

pub initial-total :
    (requested : Dict ℕ) → total (initial_shares requested) ≡ length (initial_shares requested)
unfolding initial_shares
initial-total [] = refl
initial-total ((owner, limit) ∷ rest) =
    let s : Share = record { owner = owner; requested = max 1 limit; limit = 1 } in
    ground (arith, initial-total rest, insert-total s (initial_shares rest))

pub initial-Within : (requested : Dict ℕ) → Within (initial_shares requested)
unfolding initial_shares
initial-Within [] = tt
initial-Within ((owner, limit) ∷ rest) =
    elim (str_eq owner "")
      as (λ b. Within (
        if b
        then initial_shares rest
        else insert_share (record { owner = owner; requested = max 1 limit; limit = 1 })
            (initial_shares rest))) [
              | true ↦ initial-Within rest
              | false ↦ insert-Within _ _ (omega arith) (omega arith) (initial-Within rest)
            ]
