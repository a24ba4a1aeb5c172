-- ===== src/Dispatch/Burst.antt =====
-- app/store.py, `claim_next_pending`: retries are claimed between the tasks that were never tried.
use api.Base.{
  ℕ, ◌+◌, ◌-◌, ◌<◌, true, false, Option, none, some, List, [], ◌∷◌, String, leb, ◌≡◌, refl, arith,
  Bool-cases, inl, inr, ◌⊎◌, All, Any, sym, subst, length,
}
use mathlib.Core.List.{append-nil}
use api.Tasks.Meta.{Meta, is_pending, is_retry}
use api.Dispatch.Expire.{StoredTask, Shared, Clock, expire_tasks}
use api.Dispatch.Claim.{
  Call, Store, initial_claim_burst, candidates, only, fair_order, claim_first, claim_next_pending,
}
use api.Dispatch.Waiting.{
  found, Keyed, Unique, Unique-Keyed, Open, candidates-Open, only-retries, only-All, fair_order-All,
  only-Any, fair_order-Any, fair_order-retries,
}
use api.Dispatch.Kept.{expire_tasks-Unique}
use api.Dispatch.Loop.{Runnable, Claimed, AsCounted, claim_first-Claimed}

-- A call with its time and the tasks as it finds them.
pub record Turn : Type 0 where
  pub call : Call
  pub clock : Clock
  pub tasks : List StoredTask
  pub shared : Shared

module _ (normalize : String → String) (fresh_id : String → String) where
  abbrev pub listed : Turn → List StoredTask
  listed t = (expire_tasks normalize fresh_id t.clock t.tasks t.shared).0

  -- A retry waits that the call may claim.
  abbrev pub RetryWaits : Turn → Type 0
  RetryWaits t =
      (t.call.paused ≡ false)
      × Unique t.tasks
      × Any (λ m. (is_retry m ≡ true) × Runnable t.clock t.call (listed t) m)
          (candidates t.call (listed t))

  abbrev pub store_of : Turn → ℕ → Store
  store_of t streak = record { tasks = t.tasks; shared = t.shared; streak = streak }

  abbrev pub Fit : Turn → Meta → Type 0
  Fit t m = Keyed (listed t) m × Open t.call m

  pub candidates-Fit : (t : Turn) → Unique t.tasks → All (Fit t) (candidates t.call (listed t))
  candidates-Fit t u =
      candidates-Open (Keyed (listed t)) t.call (listed t) (
        Unique-Keyed (listed t) (expire_tasks-Unique normalize fresh_id t.clock t.tasks t.shared u))

  pub both_All :
      (P : Meta → Type 0) (t : Turn) (ms : List Meta)
      → All P ms
      → All (Fit t) ms
      → All (λ m. P m × (is_pending m.status ≡ true) × (found m.id (listed t) ≡ some m)) ms
  both_All P t [] h k = tt
  both_All P t (m ∷ ms) h k = ((h.0, k.0.1.0, k.0.0), both_All P t ms h.1 k.1)

  -- The loop of a turn.
  pub looped :
      (t : Turn) (streak : ℕ)
      → t.call.paused ≡ false
      → claim_next_pending normalize fresh_id t.clock t.call (store_of t streak)
        ≡ claim_first normalize fresh_id t.clock t.call
            (listed t)
            (fair_order streak (candidates t.call (listed t)))
            (record {
              tasks = listed t;
              shared = (expire_tasks normalize fresh_id t.clock t.tasks t.shared).1;
              streak = streak;
            })
  unfolding claim_next_pending
  looped t streak open_ = rw open_ refl

  pub units : (ms : List Meta) → All (λ m. Unit {0}) ms
  units [] = tt
  units (m ∷ ms) = (tt, units ms)

  pub as-counted : (t : Turn) → AsCounted normalize fresh_id t.clock (listed t) (listed t)
  as-counted t m f young = f

  turn-Claimed :
      (t : Turn) (streak : ℕ)
      → RetryWaits t
      → Claimed
          (λ m. Unit {0})
          streak
          (claim_next_pending normalize fresh_id t.clock t.call (store_of t streak))
  turn-Claimed t streak w =
      let ms = candidates t.call (listed t) in
      let order = fair_order streak ms in
      let store : Store = record {
        tasks = listed t;
        shared = (expire_tasks normalize fresh_id t.clock t.tasks t.shared).1;
        streak = streak;
      } in
      let fits = fair_order-All (Fit t) streak ms (candidates-Fit t w.1) in
      let waits =
        fair_order-Any (Runnable t.clock t.call (listed t)) streak ms
          (only-Any (Runnable t.clock t.call (listed t)) ms w.2) in
      let found_one =
        claim_first-Claimed normalize fresh_id t.clock (listed t) (λ m. Unit {0}) t.call order []
          store w.0 (both_All (λ m. Unit {0}) t order (units order) fits) (as-counted t) waits in
      rw (looped t streak w.0) (
        subst
          (λ l.
            Claimed (λ m. Unit {0}) streak
              (claim_first normalize fresh_id t.clock t.call (listed t) l store))
          (append-nil order) found_one)

  turn-retry :
      (t : Turn) (streak : ℕ)
      → leb initial_claim_burst streak ≡ true
      → RetryWaits t
      → Claimed
          (λ m. is_retry m ≡ true)
          streak
          (claim_next_pending normalize fresh_id t.clock t.call (store_of t streak))
  turn-retry t streak full w =
      let ms = candidates t.call (listed t) in
      let store : Store = record {
        tasks = listed t;
        shared = (expire_tasks normalize fresh_id t.clock t.tasks t.shared).1;
        streak = streak;
      } in
      let waits = only-Any (Runnable t.clock t.call (listed t)) ms w.2 in
      let fits = only-All (Fit t) true ms (candidates-Fit t w.1) in
      let found_one =
        claim_first-Claimed normalize fresh_id t.clock (listed t) (λ m. is_retry m ≡ true) t.call
          (only true ms) (only false ms) store w.0
          (both_All (λ m. is_retry m ≡ true) t (only true ms) (only-retries ms) fits) (as-counted t)
          waits in
      rw (looped t streak w.0) (
        subst
          (λ l.
            Claimed (λ m. is_retry m ≡ true) streak
              (claim_first normalize fresh_id t.clock t.call (listed t) l store))
          (sym (fair_order-retries (Runnable t.clock t.call (listed t)) streak ms full waits))
          found_one)

  -- The tasks that calls in turn claim, whatever else happens to the tasks between them.
  unfoldable pub claims : List Turn → ℕ → List (Option Meta)
  claims [] streak = []
  claims (t ∷ turns) streak =
      let claimed = claim_next_pending normalize fresh_id t.clock t.call (store_of t streak) in
      claimed.0 ∷ claims turns claimed.1.streak

  abbrev pub RetryIn : Option Meta → Type 0
  RetryIn none = ⊥
  RetryIn (some m) = is_retry m ≡ true

  retry-Claimed :
      (streak : ℕ) (x : Option Meta × Store)
      → Claimed (λ m. is_retry m ≡ true) streak x
      → RetryIn x.0
  retry-Claimed streak (none, store) h = elim h [ ]
  retry-Claimed streak (some m, store) h = h.0

  streak-Claimed :
      (streak : ℕ) (x : Option Meta × Store)
      → Claimed (λ m. Unit {0}) streak x
      → RetryIn x.0 ⊎ (x.1.streak ≡ streak + 1)
  streak-Claimed streak (none, store) h = elim h [ ]
  streak-Claimed streak (some m, store) h =
      elim (Bool-cases (is_retry m)) as (λ _. (is_retry m ≡ true) ⊎ (store.streak ≡ streak + 1)) [
        | inl e ↦ inl e
        | inr e ↦ inr (ground (arith, e, h.1))
      ]

  -- While retries wait that may be claimed, one of them is claimed by the time that the streak of other
  -- tasks reaches its bound, whatever else happens to the tasks between the calls.
  pub claims-retry :
      (turns : List Turn) (streak : ℕ)
      → All RetryWaits turns
      → initial_claim_burst - streak < length turns
      → Any RetryIn (claims turns streak)
  unfolding claims
  claims-retry [] streak w n = absurd (omega (arith, n))
  claims-retry (t ∷ turns) streak w n =
      let claimed = claim_next_pending normalize fresh_id t.clock t.call (store_of t streak) in
      elim (Bool-cases (leb initial_claim_burst streak))
        as (λ _. Any RetryIn (claims (t ∷ turns) streak)) [
          | inl full ↦ inl (retry-Claimed streak claimed (turn-retry t streak full w.0))
          | inr few ↦
              elim (streak-Claimed streak claimed (turn-Claimed t streak w.0))
                as (λ _. Any RetryIn (claims (t ∷ turns) streak)) [
                  | inl r ↦ inl r
                  | inr e ↦
                      inr (claims-retry turns claimed.1.streak w.1 (ground (arith, e, few, n)))
                ]
        ]
