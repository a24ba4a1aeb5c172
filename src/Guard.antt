-- ===== src/Guard.antt =====
-- app/resilience.py: the admission of work to a platform, with the state of one platform that a
-- process without Redis keeps. Times are milliseconds of a clock that starts after 0, and a
-- bucket counts in parts of a token, 60000 to one, so that the refill of a millisecond is the
-- rate for a minute; the floating point numbers of the source are taken as exact.
pub mod Circuit
pub mod Rate
pub mod Fair
pub mod Level
pub mod Dealt
mod Tests
use api.Base.{
  ℕ, ◌+◌, ◌-◌, ◌*◌, ◌/◌, min, max, Bool, true, false, ◌&&◌, ◌||◌, not, Option, none, some, List, [],
  ◌∷◌, ltb, leb, ◌==◌, if◌then◌else◌,
}

pub record Policy : Type 0 where
  pub platform_rate_per_minute : ℕ
  pub platform_burst : ℕ
  pub circuit_failure_threshold : ℕ
  pub circuit_recovery_seconds : ℕ
  pub queue_high_watermark : ℕ

pub data Reason : Type 0 where
  no_reason circuit_open half_open rate_limited queue_overloaded : Reason

pub record Admission : Type 0 where
  pub allowed : Bool
  pub reason : Reason
  pub retry_after : ℕ

-- `opened` and `probe` are 0 where nothing is set.
pub record CircuitState : Type 0 where
  pub failures : ℕ
  pub opened : ℕ
  pub probe : ℕ

pub record Bucket : Type 0 where
  pub tokens : ℕ
  pub updated : ℕ

-- The entries of one platform in `_LOCAL_CIRCUITS` and `_LOCAL_BUCKETS`.
pub record Guard : Type 0 where
  pub circuit : Option CircuitState
  pub bucket : Option Bucket

abbrev pub token_parts : ℕ
token_parts = 60000

abbrev pub admitted : Admission
admitted = record { allowed = true; reason = no_reason; retry_after = 0 }

-- `math.ceil(a / b)`
abbrev pub ceil_div : ℕ → ℕ → ℕ
ceil_div a b = (a + (b - 1)) / b

abbrev pub is_half_open : Reason → Bool
is_half_open half_open = true
is_half_open _ = false

-- `_admit_circuit`
unfoldable pub admit_circuit : Policy → ℕ → Option CircuitState → Admission × Option CircuitState
admit_circuit policy now none = (admitted, none)
admit_circuit policy now (some state) =
    let recovery = policy.circuit_recovery_seconds * 1000 in
    let wait : Admission = record {
      allowed = false;
      reason = circuit_open;
      retry_after = ceil_div (state.opened + recovery - now) 1000;
    } in
    let busy : Admission = record {
      allowed = false;
      reason = circuit_open;
      retry_after = policy.circuit_recovery_seconds;
    } in
    let probing : Admission = record {
      allowed = true;
      reason = half_open;
      retry_after = policy.circuit_recovery_seconds;
    } in
    if state.opened == 0
    then (admitted, some state)
    else if ltb now (state.opened + recovery)
    then (wait, some state)
    else if not (state.probe == 0)
    then (busy, some state)
    else (probing, some (record state { probe = now }))

-- `_take_token`
unfoldable pub take_token : Policy → ℕ → Option Bucket → Admission × Option Bucket
take_token policy now found =
    let burst = policy.platform_burst * token_parts in
    let rate = policy.platform_rate_per_minute in
    let bucket : Bucket = elim found as (λ _. Bucket) [
      | none ↦ record { tokens = burst; updated = now }
      | some b ↦ b
    ] in
    let tokens = min burst (bucket.tokens + (now - bucket.updated) * rate) in
    let refused : Admission = record {
      allowed = false;
      reason = rate_limited;
      retry_after = max 1 (ceil_div (token_parts - tokens) (rate * 1000));
    } in
    if leb token_parts tokens
    then (admitted, some (record { tokens = tokens - token_parts; updated = now }))
    else (refused, some (record { tokens = tokens; updated = now }))

-- `_release_probe`
unfoldable pub release_probe : Option CircuitState → Option CircuitState
release_probe none = none
release_probe (some state) = some (record state { probe = 0 })

-- One step of one caller: what other callers do between the look at the circuit, the token and the
-- release of the probe, for each of which the source takes its lock anew, is not modelled.
unfoldable pub admit : Policy → Bool → ℕ → Guard → Admission × Guard
admit policy rate_limit now guard =
    let (circuit, after) = admit_circuit policy now guard.circuit in
    let (limited, bucket) = take_token policy now guard.bucket in
    let released =
      if not limited.allowed && is_half_open circuit.reason then release_probe after else after in
    if not circuit.allowed || not rate_limit
    then (circuit, record guard { circuit = after })
    else (limited, record { circuit = released; bucket = bucket })

unfoldable pub record_success : Guard → Guard
record_success guard = record guard { circuit = none }

unfoldable pub record_failure : Policy → ℕ → Guard → Guard
record_failure policy now guard =
    let state : CircuitState = elim (guard.circuit) as (λ _. CircuitState) [
      | none ↦ record { failures = 0; opened = 0; probe = 0 }
      | some s ↦ s
    ] in
    let failures = state.failures + 1 in
    record guard {
      circuit = some (record {
        failures = failures;
        opened = if leb policy.circuit_failure_threshold failures then now else state.opened;
        probe = 0;
      });
    }

-- `queue_admission`
unfoldable pub queue_admission : Policy → (ready processing delayed : ℕ) → Admission
queue_admission policy ready processing delayed =
    if leb policy.queue_high_watermark (ready + processing + delayed)
    then record { allowed = false; reason = queue_overloaded; retry_after = 10 }
    else admitted
