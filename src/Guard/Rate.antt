-- ===== src/Guard/Rate.antt =====
-- app/resilience.py, `_take_token`: how many calls a bucket admits.
use native.Mathlib.Nat.{add-mul}
use api.Base.{
  ℕ, ◌+◌, ◌-◌, ◌*◌, ◌≤◌, min, true, false, Option, none, some, List, [], ◌∷◌, ◌≡◌, refl, sym, ap,
  ◌∙◌, arith, Bool-cases, inl, inr, leb, if◌then◌else◌,
}
use api.Guard.{Policy, Bucket, token_parts, take_token}

-- The calls admitted of those at the given times, and the bucket after them.
unfoldable pub takes : Policy → List ℕ → Option Bucket → ℕ × Option Bucket
unfolding take_token
takes policy [] bucket = (0, bucket)
takes policy (now ∷ times) bucket =
    let first = take_token policy now bucket in
    let rest = takes policy times first.1 in
    (if first.0.allowed then rest.0 + 1 else rest.0, rest.1)

-- The times do not go back behind `from`, and end before or at `to`.
abbrev pub Ordered : ℕ → ℕ → List ℕ → Type 0
Ordered from to [] = from ≤ to
Ordered from to (now ∷ times) = (from ≤ now) × Ordered now to times

Ordered-le : (from to : ℕ) (times : List ℕ) → Ordered from to times → from ≤ to
Ordered-le from to [] h = h
Ordered-le from to (now ∷ times) h = omega (arith, Ordered-le now to times h.1, h.0)

-- What a bucket holds at a later time.
abbrev pub level : Policy → ℕ → Bucket → ℕ
level policy now b =
    min (policy.platform_burst * token_parts)
      (b.tokens + (now - b.updated) * policy.platform_rate_per_minute)

take-full :
    (policy : Policy) (now : ℕ) (b : Bucket)
    → leb token_parts (level policy now b) ≡ true
    → ((take_token policy now (some b)).0.allowed ≡ true)
      × ((take_token policy now (some b)).1
          ≡ some (record { tokens = level policy now b - token_parts; updated = now }))
unfolding take_token
take-full policy now b h = ground arith

take-low :
    (policy : Policy) (now : ℕ) (b : Bucket)
    → leb token_parts (level policy now b) ≡ false
    → ((take_token policy now (some b)).0.allowed ≡ false)
      × ((take_token policy now (some b)).1
          ≡ some (record { tokens = level policy now b; updated = now }))
unfolding take_token
take-low policy now b h = ground arith

span_add : (a b c rate : ℕ) → a ≤ b → b ≤ c → (b - a) * rate + (c - b) * rate ≡ (c - a) * rate
span_add a b c rate h k =
    let whole : (b - a) + (c - b) ≡ c - a = omega arith in
    sym (add-mul (b - a) (c - b) rate) ∙ ap (λ x. x * rate) whole

bucket-takes :
    (policy : Policy) (times : List ℕ) (b : Bucket) (to : ℕ)
    → Ordered b.updated to times
    → (takes policy times (some b)).0 * token_parts
      ≤ b.tokens + (to - b.updated) * policy.platform_rate_per_minute
unfolding takes
bucket-takes policy [] b to h = omega arith
bucket-takes policy (now ∷ times) b to h =
    let rate = policy.platform_rate_per_minute in
    let later = Ordered-le now to times h.1 in
    let full : Bucket = record { tokens = level policy now b - token_parts; updated = now } in
    let low : Bucket = record { tokens = level policy now b; updated = now } in
    elim (Bool-cases (leb token_parts (level policy now b))) [
      | inl enough ↦
          let took = take-full policy now b enough in
          let rest = bucket-takes policy times full to h.1 in
          rw (took.0, took.1) (ground (arith, rest, span_add b.updated now to rate h.0 later))
      | inr lacking ↦
          let took = take-low policy now b lacking in
          let rest = bucket-takes policy times low to h.1 in
          rw (took.0, took.1) (ground (arith, rest, span_add b.updated now to rate h.0 later))
    ]

take_none :
    (policy : Policy) (now : ℕ)
    → take_token policy now none
      ≡ take_token policy now
          (some (record { tokens = policy.platform_burst * token_parts; updated = now }))
unfolding take_token
take_none policy now = refl

-- From a platform that was never used, the calls at times that do not go back, the first at `start`
-- and none after `to`, are admitted at most as often as the burst and the refill of the time between
-- allow.
pub takes-bound :
    (policy : Policy) (start to : ℕ) (times : List ℕ)
    → Ordered start to times
    → (takes policy (start ∷ times) none).0 * token_parts
      ≤ policy.platform_burst * token_parts + (to - start) * policy.platform_rate_per_minute
unfolding takes
takes-bound policy start to times h =
    let full : Bucket = record { tokens = policy.platform_burst * token_parts; updated = start } in
    rw (take_none policy start) (bucket-takes policy (start ∷ times) full to (omega arith, h))
