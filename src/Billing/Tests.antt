-- ===== src/Billing/Tests.antt =====
-- Inputs of app/billing.py, and instances of its theorems.
use api.Base.{ℕ, ◌+◌, ◌*◌, ◌≤◌, ◌<◌, ◌≡◌, ◌⊎◌, refl, arith, some, [], ◌∷◌, false}
use api.Base.Int.{pos, negsuc}
use api.Base.Text.{strip}
use api.Base.Dict.{lookup}
use api.Base.Result.{ok, err}
use api.Billing.{
  Decimal, finite, value_error, points_to_units, units_to_points, package_bonus_free_uses, Settings,
  model_cost_units, model_video_quota_cost_units, duration_cost, quota_cost, configured_cost,
  priced_or, lookup_duration, select_duration, mem_duration,
}
use api.Billing.Laws.{points_to_units-units_to_points, package_bonus-nearest}

-- 2.5 points, and what is finer than 0.1.
reads :
    (points_to_units (some (finite false 25 (negsuc 0))) ≡ ok 25)
    × (points_to_units (some (finite false 250 (negsuc 1))) ≡ ok 25)
    × (points_to_units (some (finite false 255 (negsuc 1))) ≡ err value_error)
    × (points_to_units (some (finite false 3 (pos 1))) ≡ ok 300)
    × (points_to_units (some (finite false 0 (pos 0))) ≡ err value_error)
unfolding points_to_units
reads = (refl, refl, refl, refl, refl)

-- A float that is written exactly.
abbrev exact_text : ℕ → Decimal
exact_text value = finite false value (negsuc 0)

points_to_units-units_to_points_example :
    points_to_units (some (units_to_points exact_text 25)) ≡ ok 25
points_to_units-units_to_points_example =
    points_to_units-units_to_points exact_text 25 (λ value h. refl) (omega arith) (omega arith)

package_bonus-nearest_example :
    (1230 < 300) × (◌≡◌ {A = ℕ} 25 0)
    ⊎ (300 ≤ 1230) × (25 * 100 ≤ 1230 * 2 + 50) × (1230 * 2 < 25 * 100 + 50)
unfolding package_bonus_free_uses points_to_units
package_bonus-nearest_example =
    package_bonus-nearest (some (finite false 123 (pos 0))) 1230 25 refl refl

abbrev settings : Settings
settings = record {
  model_duration_costs =
      ("qianwen", ("Wan 2.7", (10, some (finite false 12 (negsuc 0))) ∷ []) ∷ []) ∷ [];
  model_duration_quota_costs =
      ("qianwen", ("Wan 2.7", (10, some (finite false 2 (pos 0))) ∷ []) ∷ []) ∷ [];
  model_durations = [];
  model_costs = ("qianwen", ("Wan 2.7", some (finite false 3 (pos 0))) ∷ []) ∷ [];
  video_duration = 15;
}

program : Unit {0}
unfolding model_cost_units duration_cost configured_cost priced_or lookup_duration select_duration
    mem_duration lookup strip points_to_units model_video_quota_cost_units quota_cost
program = tt

-- A duration with a price, one without, and a model that only the table knows.
prices :
    (model_cost_units (λ s. s) (λ s. s) settings " qianwen " "Wan 2.7" 0 ≡ ok 12)
    × (model_cost_units (λ s. s) (λ s. s) settings "qianwen" "Wan 2.7" 5 ≡ ok 30)
    × (model_cost_units (λ s. s) (λ s. s) settings "dola" "seedance 2.0" 5 ≡ ok 10)
unfolding program
prices = (refl, refl, refl)
