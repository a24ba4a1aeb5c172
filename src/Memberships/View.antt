-- ===== src/Memberships/View.antt =====
-- app/users.py: what a change of the running membership leaves to be seen of each membership.
use api.Base.{
  ℕ, zero, suc, ◌+◌, Bool, true, false, ◌&&◌, ◌||◌, not, Option, none, some, List, [], ◌∷◌, ltb,
  ◌==◌, ◌≡◌, refl, arith, if◌then◌else◌, get_elem?, set, All, ◌⊎◌, inl, inr, sym, ◌∙◌, subst,
  Bool-cases,
}
use api.Memberships.State.{
  Membership, Status, active, paused, expired, is_active, is_expired, membership_remaining_seconds,
  price_units, is_above, is_eligible, first_active, highest, expire, pause, activate,
}

-- The time that is left, the rank, and whether it may run.
abbrev pub SameView : ℕ → Membership → Membership → Type 0
SameView now m n =
    (membership_remaining_seconds now n ≡ membership_remaining_seconds now m)
    × (is_eligible now n ≡ is_eligible now m)
    × (price_units n ≡ price_units m)
    × (n.purchased_at ≡ m.purchased_at)

abbrev pub SameAll : ℕ → List Membership → List Membership → Type 0
SameAll now [] [] = Unit
SameAll now (m ∷ ms) (n ∷ ns) = SameView now m n × SameAll now ms ns
SameAll now _ _ = ⊥

pub SameAll-refl : (now : ℕ) (ms : List Membership) → SameAll now ms ms
SameAll-refl now [] = tt
SameAll-refl now (m ∷ ms) = ((refl, refl, refl, refl), SameAll-refl now ms)

pub SameAll-trans :
    (now : ℕ) (ms ns ps : List Membership)
    → SameAll now ms ns
    → SameAll now ns ps
    → SameAll now ms ps
SameAll-trans now [] [] [] h k = tt
SameAll-trans now (m ∷ ms) (n ∷ ns) (p ∷ ps) h k = (
  (k.0.0 ∙ h.0.0, k.0.1 ∙ h.0.1, k.0.2 ∙ h.0.2, k.0.3 ∙ h.0.3),
  SameAll-trans now ms ns ps h.1 k.1,
)
SameAll-trans now [] [] (p ∷ ps) h k = elim k [ ]
SameAll-trans now [] (n ∷ ns) ps h k = elim h [ ]
SameAll-trans now (m ∷ ms) [] ps h k = elim h [ ]
SameAll-trans now (m ∷ ms) (n ∷ ns) [] h k = elim k [ ]

pub set-SameAll :
    (now : ℕ) (ms : List Membership) (i : ℕ) (m v : Membership)
    → get_elem? ms i ≡ some m
    → SameView now m v
    → SameAll now ms (set ms i v)
set-SameAll now [] i m v e h = absurd (ground (arith, e))
set-SameAll now (n ∷ ms) zero m v e h =
    let same : n ≡ m = ground (arith, e) in
    (subst (λ k. SameView now k v) (sym same) h, SameAll-refl now ms)
set-SameAll now (n ∷ ms) (suc i) m v e h = ((refl, refl, refl, refl), set-SameAll now ms i m v e h)

pub not_expired : (s : Status) → is_active s ≡ true → is_expired s ≡ false
not_expired active h = refl
not_expired paused h = refl
not_expired expired h = absurd (ground (arith, h))

module _ (now : ℕ) (m : Membership) where
  pub expire-SameView :
      is_active m.status ≡ true → membership_remaining_seconds now m ≡ 0 → SameView now m (expire m)
  unfolding is_eligible membership_remaining_seconds
  expire-SameView a r = (ground (arith, r), ground (arith, r), refl, refl)

  pub pause-SameView : is_active m.status ≡ true → SameView now m (pause now m)
  unfolding is_eligible membership_remaining_seconds
  pause-SameView a =
      let kept : is_expired m.status ≡ false = not_expired m.status a in
      (refl, ground (arith, kept), refl, refl)

  pub activate-SameView :
      is_active m.status ≡ false → is_expired m.status ≡ false → SameView now m (activate now m)
  unfolding is_eligible membership_remaining_seconds
  activate-SameView a e = (ground (arith, a), ground (arith, a, e), refl, refl)

-- How many memberships are active.
unfoldable pub count_active : List Membership → ℕ
count_active [] = 0
count_active (m ∷ ms) = let rest = count_active ms in if is_active m.status then rest + 1 else rest

-- Where the first active membership stands, or that there is none.
abbrev pub Located : List Membership → Option (ℕ × Membership) → Type 0
Located ms none = count_active ms ≡ 0
Located ms (some (i, m)) = (get_elem? ms i ≡ some m) × (is_active m.status ≡ true)

step-Located :
    (m : Membership) (ms : List Membership) (o : Option (ℕ × Membership)) (b : Bool)
    → is_active m.status ≡ b
    → Located ms o
    → Located (m ∷ ms) (
        if b then some (0, m) else elim o as (λ _. Option (ℕ × Membership)) [
          | none ↦ none
          | some (i, n) ↦ some (suc i, n)
        ])
unfolding count_active
step-Located m ms o true e h = (refl, e)
step-Located m ms none false e h = ground (arith, e, h)
step-Located m ms (some (i, n)) false e h = h

pub first_active-Located : (ms : List Membership) → Located ms (first_active ms)
unfolding first_active count_active
first_active-Located [] = refl
first_active-Located (m ∷ ms) =
    step-Located m ms (first_active ms) (is_active m.status) refl (first_active-Located ms)

above_trans :
    (a b c d e f : ℕ)
    → (ltb c a || c == a && ltb d b) ≡ false
    → (ltb e c || e == c && ltb f d) ≡ false
    → (ltb e a || e == a && ltb f b) ≡ false
above_trans a b c d e f h k = ground arith

pub is_above_trans :
    (m n p : Membership) → is_above m n ≡ false → is_above n p ≡ false → is_above m p ≡ false
unfolding is_above
is_above_trans m n p h k =
    above_trans (price_units m) m.purchased_at (price_units n) n.purchased_at (price_units p)
      p.purchased_at h k

is_above_asym : (m n : Membership) → is_above m n ≡ true → is_above n m ≡ false
unfolding is_above
is_above_asym m n h = ground arith

is_above_irrefl : (m : Membership) → is_above m m ≡ false
unfolding is_above
is_above_irrefl m = ground arith

-- No membership that may run ranks above `h`.
abbrev pub NoneAbove : ℕ → Membership → List Membership → Type 0
NoneAbove now h ms = All (λ x. (is_eligible now x ≡ false) ⊎ (is_above x h ≡ false)) ms

abbrev pub Top : ℕ → List Membership → Option (ℕ × Membership) → Type 0
Top now ms none = All (λ x. is_eligible now x ≡ false) ms
Top now ms (some (i, h)) =
    (get_elem? ms i ≡ some h) × (is_eligible now h ≡ true) × NoneAbove now h ms

lower-NoneAbove :
    (now : ℕ) (m n : Membership) (ms : List Membership)
    → is_above n m ≡ false
    → NoneAbove now n ms
    → NoneAbove now m ms
lower-NoneAbove now m n [] a h = tt
lower-NoneAbove now m n (x ∷ ms) a (inl h, k) = (inl h, lower-NoneAbove now m n ms a k)
lower-NoneAbove now m n (x ∷ ms) a (inr h, k) =
    (inr (is_above_trans x n m h a), lower-NoneAbove now m n ms a k)

none-NoneAbove :
    (now : ℕ) (m : Membership) (ms : List Membership)
    → All (λ x. is_eligible now x ≡ false) ms
    → NoneAbove now m ms
none-NoneAbove now m [] h = tt
none-NoneAbove now m (x ∷ ms) h = (inl h.0, none-NoneAbove now m ms h.1)

if-Top :
    (now : ℕ) (ms : List Membership) (b : Bool) (x y : Option (ℕ × Membership))
    → (b ≡ true → Top now ms x)
    → (b ≡ false → Top now ms y)
    → Top now ms (if b then x else y)
if-Top now ms true x y f g = f refl
if-Top now ms false x y f g = g refl

step-Top :
    (now : ℕ) (m : Membership) (ms : List Membership) (o : Option (ℕ × Membership))
    → Top now ms o
    → Top now (m ∷ ms) (elim o as (λ _. Option (ℕ × Membership)) [
      | none ↦ if is_eligible now m then some (0, m) else none
      | some (i, n) ↦
          if is_eligible now m && not (is_above n m) then some (0, m) else some (suc i, n)
    ])
step-Top now m ms none h =
    if-Top now (m ∷ ms) (is_eligible now m) (some (0, m)) none
      (λ e. (refl, e, (inr (is_above_irrefl m), none-NoneAbove now m ms h))) (λ e. (e, h))
step-Top now m ms (some (i, n)) h =
    if-Top now (m ∷ ms) (is_eligible now m && not (is_above n m)) (some (0, m)) (some (suc i, n))
      (λ e. (
        refl,
        ground arith,
        (inr (is_above_irrefl m), lower-NoneAbove now m n ms (ground arith) h.2),
      ))
      (λ e. (h.0, h.1, (lower now m n e, h.2)))
  where
    lower :
        (now : ℕ) (m n : Membership)
        → (is_eligible now m && not (is_above n m)) ≡ false
        → (is_eligible now m ≡ false) ⊎ (is_above m n ≡ false)
    lower now m n e =
        elim (Bool-cases (is_eligible now m))
          as (λ _. (is_eligible now m ≡ false) ⊎ (is_above m n ≡ false)) [
            | inl k ↦ inr (is_above_asym n m (ground (arith, e, k)))
            | inr k ↦ inl k
          ]

pub highest-Top : (now : ℕ) (ms : List Membership) → Top now ms (highest now ms)
unfolding highest
highest-Top now [] = tt
highest-Top now (m ∷ ms) = step-Top now m ms (highest now ms) (highest-Top now ms)
