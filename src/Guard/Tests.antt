-- ===== src/Guard/Tests.antt =====
-- A small policy, what app/resilience.py admits under it, and instances of the theorems.
use api.Base.{ℕ, ◌+◌, ◌-◌, ◌*◌, ◌≤◌, true, false, [], ◌∷◌, none, some, List, ◌≡◌, refl, arith, ltb}
use api.Guard.{
  Policy, Guard, CircuitState, token_parts, admit_circuit, take_token, release_probe, admit,
  record_success,
}
use api.Base.Dict.{Dict}
use api.Guard.Fair.{fair_owner_capacity_limits, total}
use api.Guard.Dealt.{Dealt, fair_owner_capacity_limits-Dealt}
use api.Guard.Rate.{takes, takes-bound}
use api.Guard.Circuit.{
  Call, failed, asked, released, calls, count_failed, failures-open, probe-single, admit-refused,
}

-- 30 a minute, 2 at once; the circuit opens at the second failure, for 60 seconds.
abbrev policy : Policy
policy = record {
  platform_rate_per_minute = 30;
  platform_burst = 2;
  circuit_failure_threshold = 2;
  circuit_recovery_seconds = 60;
  queue_high_watermark = 1000;
}

abbrev tripped : CircuitState
tripped = record { failures = 2; opened = 1000; probe = 0 }

abbrev fresh : Guard
fresh = record { circuit = none; bucket = none }

abbrev times : List ℕ
times = 1000 ∷ 1001 ∷ 1500 ∷ 3100 ∷ []

-- Two at once, a third after the two seconds that a token takes.
three_of_five : ◌≡◌ {A = ℕ} (takes policy (1000 ∷ times) none).0 3
unfolding takes
three_of_five = refl

-- A platform whose probe the rate limit stops.
abbrev stopped : Guard
stopped = record { circuit = some tripped; bucket = some (record { tokens = 10; updated = 61000 }) }

takes-bound_example :
    (takes policy (1000 ∷ times) none).0 * token_parts ≤ 2 * token_parts + (4000 - 1000) * 30
takes-bound_example =
    takes-bound policy 1000 4000 times
      (omega arith, (omega arith, (omega arith, (omega arith, omega arith))))

-- Two failures at two times, with a request and a release between them and a request after.
abbrev troubled : List Call
troubled = asked 1400 ∷ failed 1300 ∷ released ∷ asked 1200 ∷ failed 1000 ∷ []

failures-open_example :
    (admit_circuit policy 61299 (calls policy troubled (record_success fresh)).circuit).0.allowed
    ≡ ltb (count_failed troubled) 2
failures-open_example =
    failures-open policy 61299 troubled fresh (omega arith) (omega arith, omega arith)

probe-single_example :
    let after = (admit_circuit policy 61000 (some tripped)).1 in
    ((admit_circuit policy 61001 after).0.allowed ≡ false)
    × ((admit_circuit policy 61001 after).1 ≡ after)
unfolding admit_circuit
probe-single_example = probe-single policy 61000 61001 tripped (omega arith) refl

admit-refused_example : (admit policy true 61000 stopped).1.circuit ≡ stopped.circuit
unfolding admit admit_circuit take_token release_probe
admit-refused_example = admit-refused policy true 61000 stopped refl

-- Six places for three owners who want one, two and nine.
abbrev wishes : Dict ℕ
wishes = ("c", 9) ∷ ("a", 1) ∷ ("b", 2) ∷ []

six_places : ◌≡◌ {A = ℕ} (total (fair_owner_capacity_limits wishes 6)) 6
unfolding fair_owner_capacity_limits
six_places = refl

fair_owner_capacity_limits-Dealt_example : Dealt wishes 6 (fair_owner_capacity_limits wishes 6)
fair_owner_capacity_limits-Dealt_example = fair_owner_capacity_limits-Dealt wishes 6
