-- ===== src/Billing/Laws.antt =====
-- app/billing.py: units and prices.
use native.Mathlib.Nat.{div-add-mod, pow-suc}
use api.Base.{
  ℕ, zero, suc, ◌+◌, ◌*◌, ◌/◌, ◌%◌, ◌^◌, ◌<◌, ◌≤◌, ◌≡◌, arith, Option, none, some, List, [], ◌∷◌,
  String, ◌⊎◌, inl, inr, true, false,
}
use api.Base.Int.{ℤ, pos, negsuc}
use api.Base.Dict.{Dict, lookup}
use api.Base.Result.{Result, ok}
use api.Base.Text.{strip}
use api.Billing.{
  Decimal, Error, get_dict, priced_or, default_cost, quota_points, lookup_duration, select_duration,
  not_a_number, infinity, finite, points_to_units, units_to_points, package_bonus_free_uses,
  whole_units, Settings, duration_cost, configured_cost, quota_cost, model_cost_units,
  model_video_quota_cost_units,
}

-- The text of the float `value / 10` is the decimal of one digit after the point, as long as the number
-- has at most the 15 digits that a float keeps.
abbrev pub IsTextExact : (ℕ → Decimal) → Type 0
IsTextExact float_text =
    (value : ℕ) → value < 10 ^ 15 → float_text value ≡ finite false value (negsuc 0)

-- A positive number of units below 10 ^ 15 survives being shown as points and read again, where floats
-- are written exactly up to 15 digits.
pub points_to_units-units_to_points :
    (float_text : ℕ → Decimal) (units : ℕ)
    → IsTextExact float_text
    → 0 < units
    → units < 10 ^ 15
    → points_to_units (some (units_to_points float_text units)) ≡ ok units
unfolding points_to_units units_to_points whole_units
points_to_units-units_to_points float_text units exact h small = ground (arith, exact units small)

-- A unit is a tenth of a point. What a package of at least 300 units, which are 30 points, gives is two
-- uses for 100 units, which is one use for five points, rounded to the nearest use with halves
-- upwards; below 300 units it gives nothing.
pub package_bonus-nearest :
    (points : Option Decimal) (units bonus : ℕ)
    → points_to_units points ≡ ok units
    → package_bonus_free_uses points ≡ ok bonus
    → (units < 300) × (bonus ≡ 0)
      ⊎ (300 ≤ units) × (bonus * 100 ≤ units * 2 + 50) × (units * 2 < bonus * 100 + 50)
unfolding package_bonus_free_uses
package_bonus-nearest points units bonus h e = ground arith

ten_pow_pos : (e : ℕ) → 0 < 10 ^ e
ten_pow_pos zero = omega arith
ten_pow_pos (suc e) = rw (pow-suc 10 e) (omega (arith, ten_pow_pos e))

times_pos : (a b : ℕ) → 0 < a → 0 < b → 0 < a * b
times_pos a b p q = grind arith

quotient_pos : (n m : ℕ) → 0 < n → n % m ≡ 0 → 0 < n / m
quotient_pos n m h e = grind (arith, div-add-mod n m)

whole_units-pos : (c : ℕ) (e : ℤ) (u : ℕ) → 0 < c → whole_units c e ≡ some u → 0 < u
unfolding whole_units
whole_units-pos c (pos e) u h eq = ground (arith, times_pos (c * 10) (10 ^ e), ten_pow_pos e)
whole_units-pos c (negsuc k) u h eq = ground (arith, quotient_pos (c * 10) (10 ^ suc k))

-- A price that is accepted is at least one unit.
points_to_units-pos : (p : Option Decimal) (u : ℕ) → points_to_units p ≡ ok u → 0 < u
unfolding points_to_units
points_to_units-pos none u e = cc
points_to_units-pos (some not_a_number) u e = cc
points_to_units-pos (some (infinity true)) u e = cc
points_to_units-pos (some (infinity false)) u e = cc
points_to_units-pos (some (finite n c k)) u e = ground (arith, whole_units-pos c k u)

priced_or-pos :
    (price : Option (Option Decimal)) (later : Option (Result Error ℕ)) (u : ℕ)
    → priced_or price later ≡ some (ok u)
    → (0 < u) ⊎ (later ≡ some (ok u))
unfolding priced_or
priced_or-pos none later u e = inr e
priced_or-pos (some p) later u e = inl (points_to_units-pos p u (ground arith))

default_cost-pos : (m : String) → 0 < default_cost m
unfolding lookup
default_cost-pos m = ground arith

module _ (lower casefold : String → String) (settings : Settings) where
  duration_cost-pos :
      (p m : String) (d : ℕ) (costs : Dict (List (ℕ × Option Decimal))) (u : ℕ)
      → duration_cost lower casefold settings p m d costs ≡ some (ok u)
      → 0 < u
  unfolding duration_cost
  duration_cost-pos p m d [] u e = cc
  duration_cost-pos p m d ((c, prices) ∷ rest) u e = ground (
    arith,
    priced_or-pos (lookup_duration (select_duration lower casefold settings p c d) prices)
        (duration_cost lower casefold settings p m d rest) u,
    duration_cost-pos p m d rest u,
  )

  quota_cost-pos :
      (p m : String) (d : ℕ) (costs : Dict (List (ℕ × Option Decimal))) (u : ℕ)
      → quota_cost lower casefold settings p m d costs ≡ some (ok u)
      → 0 < u
  unfolding quota_cost
  quota_cost-pos p m d [] u e = cc
  quota_cost-pos p m d ((c, prices) ∷ rest) u e =
      let price =
        quota_points (lookup_duration (select_duration lower casefold settings p c d) prices) in
      ground (arith, points_to_units-pos price u, quota_cost-pos p m d rest u)

  configured_cost-pos :
      (m : String) (costs : Dict (Option Decimal)) (u : ℕ)
      → configured_cost lower casefold settings m costs ≡ some (ok u)
      → 0 < u
  unfolding configured_cost
  configured_cost-pos m [] u e = cc
  configured_cost-pos m ((c, price) ∷ rest) u e =
      ground (arith, points_to_units-pos price u, configured_cost-pos m rest u)

  -- No task is free: every price that `model_cost_units` returns is at least one unit.
  pub model_cost_units-pos :
      (platform model : String) (duration u : ℕ)
      → model_cost_units lower casefold settings platform model duration ≡ ok u
      → 0 < u
  unfolding model_cost_units
  model_cost_units-pos platform model duration u e =
      let p = lower (strip platform) in
      let m = casefold (strip model) in
      ground (
        arith,
        duration_cost-pos p m duration (get_dict p settings.model_duration_costs) u,
        configured_cost-pos m (get_dict p settings.model_costs) u,
        default_cost-pos m,
      )

  -- Every quota price that `model_video_quota_cost_units` returns is at least one unit.
  pub model_video_quota_cost_units-pos :
      (platform model : String) (duration u : ℕ)
      → model_video_quota_cost_units lower casefold settings platform model duration ≡ ok u
      → 0 < u
  unfolding model_video_quota_cost_units
  model_video_quota_cost_units-pos platform model duration u e =
      let p = lower (strip platform) in
      let m = casefold (strip model) in
      ground (arith, quota_cost-pos p m duration (get_dict p settings.model_duration_quota_costs) u)
