-- ===== src/Billing.antt =====
-- app/billing.py: points with one decimal place as whole units of 0.1, and the price of a task.
-- A `Decimal` is sign, coefficient and exponent, as Python's `decimal` has it, or one of the special
-- values. `Decimal(str(value))` itself is read by the library: `none` is the text that it rejects.
-- The coefficients are those of at most 27 digits, for which `points * POINT_SCALE` is exact.
pub mod Laws
mod Tests
use api.Base.{
  ℕ, suc, ◌+◌, ◌*◌, ◌/◌, ◌%◌, ◌^◌, Bool, true, false, ◌||◌, not, Option, none, some, List, [], ◌∷◌,
  String, str_eq, ltb, ◌==◌, if◌then◌else◌,
}
use api.Base.Text.{strip}
use api.Base.Int.{ℤ, pos, negsuc}
use api.Base.Dict.{Dict, lookup}
use api.Base.Result.{Result, ok, err}

abbrev pub point_scale : ℕ
point_scale = 10

abbrev default_model_cost_units : ℕ
default_model_cost_units = 10

pub data Decimal : Type 0 where
  not_a_number : Decimal
  infinity : (negative : Bool) → Decimal
  finite : (negative : Bool) (coefficient : ℕ) (exponent : ℤ) → Decimal

-- `value_error` is the exception that the functions raise; the other two escape from `decimal`.
pub data Error : Type 0 where
  value_error invalid_operation overflow_error : Error

-- `int(units)` for `units = points * POINT_SCALE`, where that is a whole number.
unfoldable pub whole_units : ℕ → ℤ → Option ℕ
whole_units c (pos e) = some (c * point_scale * 10 ^ e)
whole_units c (negsuc k) =
    if c * point_scale % 10 ^ suc k == 0 then some (c * point_scale / 10 ^ suc k) else none

abbrev pub or_value_error : Option ℕ → Result Error ℕ
or_value_error none = err value_error
or_value_error (some units) = ok units

unfoldable pub points_to_units : Option Decimal → Result Error ℕ
unfolding whole_units
points_to_units none = err value_error
points_to_units (some not_a_number) = err invalid_operation
points_to_units (some (infinity negative)) =
    if negative then err value_error else err overflow_error
points_to_units (some (finite negative c e)) =
    if negative || c == 0 then err value_error else or_value_error (whole_units c e)

unfoldable pub nonnegative_points_to_units : Option Decimal → Result Error ℕ
unfolding whole_units
nonnegative_points_to_units none = err value_error
nonnegative_points_to_units (some not_a_number) = err invalid_operation
nonnegative_points_to_units (some (infinity negative)) =
    if negative then err value_error else err overflow_error
nonnegative_points_to_units (some (finite true c e)) =
    if c == 0 then or_value_error (whole_units c e) else err value_error
nonnegative_points_to_units (some (finite false c e)) = or_value_error (whole_units c e)

-- An `int`, or the float `value / 10`, of which `float_text value` is the text as a decimal: how floats
-- are rounded and written is Python's.
unfoldable pub units_to_points : (float_text : ℕ → Decimal) → ℕ → Decimal
units_to_points float_text value =
    if value % point_scale == 0
    then finite false (value / point_scale) (pos 0)
    else float_text value

unfoldable pub package_bonus_free_uses : Option Decimal → Result Error ℕ
package_bonus_free_uses points = elim (points_to_units points) [
  | err e ↦ err e
  | ok units ↦ ok (if ltb units 300 then 0 else (units * 2 + 50) / 100)
]

-- The part of the settings that prices are read from. A price is what the settings hold, parsed.
pub record Settings : Type 0 where
  pub model_duration_costs : Dict (Dict (List (ℕ × Option Decimal)))
  pub model_duration_quota_costs : Dict (Dict (List (ℕ × Option Decimal)))
  pub model_durations : Dict (Dict (List ℕ))
  pub model_costs : Dict (Dict (Option Decimal))
  pub video_duration : ℕ

-- `d.get(k, {})`
abbrev get_dict {ℓ} : {V : Type ℓ} → String → Dict (List V) → List V
get_dict k d = elim (lookup k d) [ none ↦ [] | some v ↦ v ]

lookup_duration {ℓ} : {V : Type ℓ} → ℕ → List (ℕ × V) → Option V
lookup_duration d [] = none
lookup_duration d ((k, v) ∷ rest) = if k == d then some v else lookup_duration d rest

mem_duration : ℕ → List ℕ → Bool
mem_duration d [] = false
mem_duration d (k ∷ rest) = if k == d then true else mem_duration d rest

abbrev head_or : List ℕ → ℕ → ℕ
head_or [] d = d
head_or (k ∷ _) _ = k

abbrev model_cost_table : Dict ℕ
model_cost_table =
    ("seedance 2.0", 10)
    ∷ ("万相 2.7", 8)
    ∷ ("万相 2.6", 5)
    ∷ ("happyhorse 1.0", 8)
    ∷ ("happyhorse 1.1", 8)
    ∷ []

-- The body of the loop over `platform_duration_costs`: a duration without a price goes on.
priced_or : Option (Option Decimal) → Option (Result Error ℕ) → Option (Result Error ℕ)
priced_or none later = later
priced_or (some points) later = some (points_to_units points)

-- `MODEL_COST_UNITS.get(model, DEFAULT_MODEL_COST_UNITS)`
abbrev default_cost : String → ℕ
default_cost model = elim (lookup model model_cost_table) [
  | none ↦ default_model_cost_units
  | some u ↦ u
]

-- `duration_costs.get(selected_duration, 1)`
abbrev quota_points : Option (Option Decimal) → Option Decimal
quota_points none = some (finite false 1 (pos 0))
quota_points (some points) = points

-- `lower` and `casefold` are the methods of `str`.
module _ (lower casefold : String → String) (settings : Settings) where
  abbrev normalized_platform : String → String
  normalized_platform platform = lower (strip platform)

  abbrev normalized_model : String → String
  normalized_model model = casefold (strip model)

  -- A duration of 0 is an absent one.
  select_duration : String → String → ℕ → ℕ
  unfolding lookup mem_duration
  select_duration platform configured_model duration =
      let enabled = get_dict configured_model (get_dict platform settings.model_durations) in
      let preferred : ℕ = if str_eq platform "dola" then settings.video_duration else 10 in
      if not (duration == 0)
      then duration
      else if mem_duration preferred enabled
      then preferred
      else head_or enabled preferred

  -- The loop over `platform_duration_costs`: `none` when it falls through.
  duration_cost : String → String → ℕ → Dict (List (ℕ × Option Decimal)) → Option (Result Error ℕ)
  duration_cost platform model duration [] = none
  duration_cost platform model duration ((configured_model, duration_costs) ∷ rest) =
      let later = duration_cost platform model duration rest in
      if str_eq (casefold configured_model) model
      then priced_or
          (lookup_duration (select_duration platform configured_model duration) duration_costs)
          later
      else later

  -- The loop over `platform_costs`.
  configured_cost : String → Dict (Option Decimal) → Option (Result Error ℕ)
  configured_cost model [] = none
  configured_cost model ((configured_model, points) ∷ rest) =
      if str_eq (casefold configured_model) model
      then some (points_to_units points)
      else configured_cost model rest

  pub model_cost_units : String → String → ℕ → Result Error ℕ
  model_cost_units platform model duration =
      let p = normalized_platform platform in
      let m = normalized_model model in
      elim (duration_cost p m duration (get_dict p settings.model_duration_costs)) [
        | some cost ↦ cost
        | none ↦ elim (configured_cost m (get_dict p settings.model_costs)) [
          | some cost ↦ cost
          | none ↦ ok (default_cost m)
        ]
      ]

  quota_cost : String → String → ℕ → Dict (List (ℕ × Option Decimal)) → Option (Result Error ℕ)
  quota_cost platform model duration [] = none
  quota_cost platform model duration ((configured_model, duration_costs) ∷ rest) =
      if str_eq (casefold configured_model) model
      then some (
          points_to_units (
            quota_points (
              lookup_duration (select_duration platform configured_model duration) duration_costs)))
      else quota_cost platform model duration rest

  pub model_video_quota_cost_units : String → String → ℕ → Result Error ℕ
  model_video_quota_cost_units platform model duration =
      let p = normalized_platform platform in
      elim (quota_cost p (normalized_model model) duration
        (get_dict p settings.model_duration_quota_costs)) [
          | some cost ↦ cost
          | none ↦ ok point_scale
        ]
