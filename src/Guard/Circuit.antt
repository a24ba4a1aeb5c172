-- ===== src/Guard/Circuit.antt =====
-- app/resilience.py: when the circuit of a platform opens, and what it lets through.
use api.Base.{
  ℕ, ◌+◌, ◌*◌, ◌<◌, Bool, false, Option, none, some, List, [], ◌∷◌, ◌≡◌, ◌⊎◌, inl, inr, refl, arith,
  if◌then◌else◌, ltb, leb,
}
use api.Guard.{
  Policy, Guard, CircuitState, Bucket, half_open, admit_circuit, release_probe, admit,
  record_success, record_failure,
}

-- What happens to the circuit of a platform, each under the lock: a failure at a time, the look of a
-- request at the circuit at a time, and the release of a probe that the rate limit stopped.
pub data Call : Type 0 where
  failed : (now : ℕ) → Call
  asked : (now : ℕ) → Call
  released : Call

abbrev pub call : Policy → Call → Guard → Guard
call policy (failed now) guard = record_failure policy now guard
call policy (asked now) guard = record guard {
  circuit = (admit_circuit policy now guard.circuit).1;
}
call policy released guard = record guard { circuit = release_probe guard.circuit }

-- A sequence of calls, the newest first.
unfoldable pub calls : Policy → List Call → Guard → Guard
unfolding record_failure admit_circuit release_probe
calls policy [] guard = guard
calls policy (c ∷ earlier) guard = call policy c (calls policy earlier guard)

unfoldable pub count_failed : List Call → ℕ
count_failed [] = 0
count_failed (failed now ∷ earlier) = count_failed earlier + 1
count_failed (_ ∷ earlier) = count_failed earlier

unfoldable pub last_failed : List Call → ℕ
last_failed [] = 0
last_failed (failed now ∷ earlier) = now
last_failed (_ ∷ earlier) = last_failed earlier

-- The last failure, if there is one, is less than the recovery time before `later`.
abbrev pub IsRecent : Policy → ℕ → List Call → Type 0
IsRecent policy later [] = Unit
IsRecent policy later (failed now ∷ earlier) =
    (0 < now) × (later < now + policy.circuit_recovery_seconds * 1000)
IsRecent policy later (_ ∷ earlier) = IsRecent policy later earlier

-- The circuit after `n` failures, of which the last was at `last`.
abbrev Counted : Policy → (n last : ℕ) → Option CircuitState → Type 0
Counted policy n last none = n ≡ 0
Counted policy n last (some s) =
    (s.failures ≡ n) × (s.opened ≡ (if leb policy.circuit_failure_threshold n then last else 0))

failure-Counted :
    (policy : Policy) (n last now : ℕ) (circuit : Option CircuitState) (bucket : Option Bucket)
    → Counted policy n last circuit
    → Counted policy
        (n + 1)
        now
        (record_failure policy now (record { circuit = circuit; bucket = bucket })).circuit
unfolding record_failure
failure-Counted policy n last now none bucket h = ground arith
failure-Counted policy n last now (some s) bucket h = ground arith

asked-Counted :
    (policy : Policy) (n last now : ℕ) (circuit : Option CircuitState)
    → Counted policy n last circuit
    → Counted policy n last (admit_circuit policy now circuit).1
unfolding admit_circuit
asked-Counted policy n last now none h = ground arith
asked-Counted policy n last now (some s) h = ground arith

released-Counted :
    (policy : Policy) (n last : ℕ) (circuit : Option CircuitState)
    → Counted policy n last circuit
    → Counted policy n last (release_probe circuit)
unfolding release_probe
released-Counted policy n last none h = h
released-Counted policy n last (some s) h = h

calls-Counted :
    (policy : Policy) (cs : List Call) (guard : Guard)
    → Counted policy
        (count_failed cs)
        (last_failed cs)
        (calls policy cs (record_success guard)).circuit
unfolding calls count_failed last_failed record_success
calls-Counted policy [] guard = refl
calls-Counted policy (failed now ∷ earlier) guard =
    let before = calls policy earlier (record_success guard) in
    failure-Counted policy (count_failed earlier) (last_failed earlier) now before.circuit
      before.bucket (calls-Counted policy earlier guard)
calls-Counted policy (asked now ∷ earlier) guard =
    asked-Counted policy (count_failed earlier) (last_failed earlier) now _
      (calls-Counted policy earlier guard)
calls-Counted policy (released ∷ earlier) guard =
    released-Counted policy (count_failed earlier) (last_failed earlier) _
      (calls-Counted policy earlier guard)

Counted-open :
    (policy : Policy) (later n last : ℕ) (circuit : Option CircuitState)
    → 0 < policy.circuit_failure_threshold
    → Counted policy n last circuit
    → (n ≡ 0) ⊎ (0 < last) × (later < last + policy.circuit_recovery_seconds * 1000)
    → (admit_circuit policy later circuit).0.allowed ≡ ltb n policy.circuit_failure_threshold
unfolding admit_circuit
Counted-open policy later n last none p h recent = ground arith
Counted-open policy later n last (some s) p h recent = ground arith

IsRecent-last :
    (policy : Policy) (later : ℕ) (cs : List Call)
    → IsRecent policy later cs
    → (count_failed cs ≡ 0)
      ⊎ (0 < last_failed cs) × (later < last_failed cs + policy.circuit_recovery_seconds * 1000)
unfolding count_failed last_failed
IsRecent-last policy later [] h = inl refl
IsRecent-last policy later (failed now ∷ earlier) h = inr h
IsRecent-last policy later (asked now ∷ earlier) h = IsRecent-last policy later earlier h
IsRecent-last policy later (released ∷ earlier) h = IsRecent-last policy later earlier h

-- After a success and any sequence of failures, of requests that look at the circuit and of releases of
-- a probe, at any times, the circuit lets work through if the failures are fewer than the threshold, which is at least one, and else
-- refuses it until the recovery time after the last failure is over.
pub failures-open :
    (policy : Policy) (later : ℕ) (cs : List Call) (guard : Guard)
    → 0 < policy.circuit_failure_threshold
    → IsRecent policy later cs
    → (admit_circuit policy later (calls policy cs (record_success guard)).circuit).0.allowed
      ≡ ltb (count_failed cs) policy.circuit_failure_threshold
failures-open policy later cs guard p recent =
    Counted-open policy later (count_failed cs) (last_failed cs) _ p (calls-Counted policy cs guard)
      (IsRecent-last policy later cs recent)

-- After a call that is let through as a probe, the next call is refused, at any time, and changes
-- nothing.
pub probe-single :
    (policy : Policy) (now later : ℕ) (state : CircuitState)
    → 0 < now
    → (admit_circuit policy now (some state)).0.reason ≡ half_open
    → let after = (admit_circuit policy now (some state)).1 in
      ((admit_circuit policy later after).0.allowed ≡ false)
      × ((admit_circuit policy later after).1 ≡ after)
unfolding admit_circuit
probe-single policy now later state t h = ground arith

-- A call that is refused, with no other caller's step between its parts, leaves the circuit as it was,
-- so a probe that the rate limit stops is not lost.
pub admit-refused :
    (policy : Policy) (rate_limit : Bool) (now : ℕ) (guard : Guard)
    → (admit policy rate_limit now guard).0.allowed ≡ false
    → (admit policy rate_limit now guard).1.circuit ≡ guard.circuit
unfolding admit admit_circuit release_probe
admit-refused policy rate_limit now guard h = ground arith
