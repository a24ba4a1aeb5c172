-- ===== src/Dispatch/Granted.antt =====
-- app/store.py, `claim_next_pending`: the task that a call claims, and the store after it.
use api.Base.{
  ℕ, ◌+◌, Bool, true, false, ◌&&◌, ◌||◌, not, Option, none, some, List, [], ◌∷◌, ◌++◌, String,
  str_eq, ◌≡◌, refl, arith, if◌then◌else◌, Bool-cases, inl, inr, ◌⊎◌, All, Any, Any-left, Any-right,
  ap, subst,
}
use mathlib.Core.List.{append-nil}
use api.Tasks.Meta.{Meta, is_retry, is_task_expired}
use api.Tasks.Update.{mark_running}
use api.Dispatch.Expire.{StoredTask, Clock, expire_tasks}
use api.Dispatch.Claim.{
  Call, Store, at_limit, is_early, candidates, only, fair_order, mark_running_task, expire_task,
  claim_first, claim_next_pending,
}
use api.Dispatch.Waiting.{found, Unique, Open, fair_order-All}
use api.Dispatch.Loop.{
  Runnable, Claimed, AsCounted, if-AsCounted, expire-AsCounted, claim_first-Claimed,
}
use api.Dispatch.Burst.{
  Turn, listed, Fit, candidates-Fit, both_All, units, as-counted, looped, store_of,
}

module _ (R : Meta → Type 0) where
  if-Any_left : (b : Bool) (m : Meta) (ms : List Meta) → Any R ms → Any R (if b then m ∷ ms else ms)
  if-Any_left true m ms h = inr h
  if-Any_left false m ms h = h

  if-Any_right :
      (b : Bool) (m : Meta) (ms : List Meta) → Any R ms → Any R (if b then ms else m ∷ ms)
  if-Any_right true m ms h = h
  if-Any_right false m ms h = inr h

  only-both : (ms : List Meta) → Any R ms → Any R (only true ms) ⊎ Any R (only false ms)
  unfolding only
  only-both [] h = elim h [ ]
  only-both (m ∷ ms) (inl h) = only-head m (only true ms) (only false ms) h (is_retry m)
    where
      only-head :
          (m : Meta) (xs ys : List Meta)
          → R m
          → (b : Bool) → Any R (if b then m ∷ xs else xs) ⊎ Any R (if b then ys else m ∷ ys)
      only-head m xs ys h true = inl (inl h)
      only-head m xs ys h false = inr (inl h)
  only-both (m ∷ ms) (inr h) =
      elim (only-both ms h) as (λ _. Any R (only true (m ∷ ms)) ⊎ Any R (only false (m ∷ ms))) [
        | inl k ↦ inl (if-Any_left (is_retry m) m (only true ms) k)
        | inr k ↦ inr (if-Any_right (is_retry m) m (only false ms) k)
      ]

  if-Any_order :
      (b : Bool) (xs ys : List Meta)
      → Any R xs ⊎ Any R ys
      → Any R (if b then xs ++ ys else ys ++ xs)
  if-Any_order true xs ys (inl h) = Any-left R xs ys h
  if-Any_order true xs ys (inr h) = Any-right R xs ys h
  if-Any_order false xs ys (inl h) = Any-right R ys xs h
  if-Any_order false xs ys (inr h) = Any-left R ys xs h

  order-Any : (streak : ℕ) (ms : List Meta) → Any R ms → Any R (fair_order streak ms)
  unfolding fair_order
  order-Any streak ms h = if-Any_order _ (only true ms) (only false ms) (only-both ms h)

mark_running-id :
    (m : Meta) (worker : String) (now : ℕ) → (mark_running false worker now m).0.id ≡ m.id
unfolding mark_running
mark_running-id m worker now = ground arith

marked-found :
    (m : Meta) (worker : String) (now : ℕ) (tasks : List StoredTask)
    → found m.id tasks ≡ some m
    → found m.id (mark_running_task false m.id worker now tasks).1
      ≡ some (mark_running false worker now m).0
unfolding mark_running_task found
marked-found m worker now [] e = absurd (ground (arith, e))
marked-found m worker now (t ∷ tasks) e =
    elim (Bool-cases (str_eq t.metadata.id m.id))
      as (λ _.
        found m.id (mark_running_task false m.id worker now (t ∷ tasks)).1
        ≡ some (mark_running false worker now m).0) [
          | inl s ↦
              let same : t.metadata ≡ m = ground (arith, e, s) in
              ground (
                arith,
                s,
                ap (λ n. some (mark_running false worker now n).0) same,
                mark_running-id t.metadata worker now,
              )
          | inr s ↦ ground (arith, s, marked-found m worker now tasks (ground (arith, e, s)))
        ]

-- What is claimed waited, may run now, and runs in the store afterwards, with the worker that claimed it.
abbrev pub Granted : Clock → Call → List StoredTask → Option Meta × Store → Type 0
Granted clock call counted (none, after) = Unit
Granted clock call counted (some m, after) =
    (found m.id counted ≡ some m)
    × Open call m
    × Runnable clock call counted m
    × (found m.id after.tasks ≡ some (mark_running false call.worker_id clock.now m).0)

if-Granted :
    (clock : Clock) (call : Call) (counted : List StoredTask) (b : Bool) (x y : Option Meta × Store)
    → Granted clock call counted x
    → (b ≡ false → Granted clock call counted y)
    → Granted clock call counted (if b then x else y)
if-Granted clock call counted true x y h g = h
if-Granted clock call counted false x y h g = g refl

module _ (normalize : String → String) (fresh_id : String → String) (clock : Clock)
    (counted : List StoredTask) where
  claim_first-Granted :
      (call : Call) (ms : List Meta) (store : Store)
      → call.paused ≡ false
      → All (λ m. (found m.id counted ≡ some m) × Open call m) ms
      → AsCounted normalize fresh_id clock counted store.tasks
      → Granted clock call counted (claim_first normalize fresh_id clock call counted ms store)
  unfolding claim_first
  claim_first-Granted call [] store open_ h keep = tt
  claim_first-Granted call (m ∷ ms) store open_ h keep =
      let expired = expire_task normalize fresh_id clock m.id store.tasks store.shared in
      let old = record store { tasks = expired.0; shared = expired.1 } in
      let is_old = not (is_early normalize fresh_id clock m) && is_task_expired clock.now m in
      let next : Store = if is_old then old else store in
      let kept : AsCounted normalize fresh_id clock counted next.tasks =
        if-AsCounted normalize fresh_id clock counted is_old old store
          (λ b.
            expire-AsCounted normalize fresh_id clock counted m store.tasks store.shared h.0.0
              (ground arith) keep)
          keep in
      let marked = mark_running_task call.paused m.id call.worker_id clock.now store.tasks in
      let skipped =
        is_early normalize fresh_id clock m
        || is_old
        || at_limit call counted m.owner_token_hash
        || m.cancel_requested
        || not marked.0 in
      let claimed = record store {
        tasks = marked.1;
        streak = if is_retry m then 0 else store.streak + 1;
      } in
      if-Granted clock call counted skipped
        (claim_first normalize fresh_id clock call counted ms next) (some m, claimed)
        (claim_first-Granted call ms next open_ h.1 kept)
        (λ run.
          let young : is_task_expired clock.now m ≡ false = ground (arith, run) in
          (
            h.0.0,
            h.0.1,
            (ground (arith, run), ground (arith, run), young, ground (arith, run)),
            rw open_ (marked-found m call.worker_id clock.now store.tasks (keep m h.0.0 young)),
          ))

-- A task was claimed by the rules, or there was none to claim.
abbrev pub Answer : Clock → Call → List StoredTask → Option Meta × Store → Type 0
Answer clock call counted (none, after) =
    ¬ Any (Runnable clock call counted) (candidates call counted)
Answer clock call counted (some m, after) = Granted clock call counted (some m, after)

answer :
    (clock : Clock) (call : Call) (counted : List StoredTask) (streak : ℕ) (x : Option Meta × Store)
    → Granted clock call counted x
    → (Any (Runnable clock call counted) (candidates call counted)
        → Claimed (λ m. Unit {0}) streak x)
    → Answer clock call counted x
answer clock call counted streak (none, after) g c = λ w. c w
answer clock call counted streak (some m, after) g c = g

module _ (normalize : String → String) (fresh_id : String → String) where
  -- While no pause is set, a call claims a task that waits, is due, is not too old, is not to be canceled
  -- and whose owner is below the limit; that task then runs with the worker of the call. It claims none
  -- only if there is no such task.
  pub claim_next_pending-Answer :
      (t : Turn) (streak : ℕ)
      → t.call.paused ≡ false
      → Unique t.tasks
      → Answer t.clock t.call (listed normalize fresh_id t) (
          claim_next_pending normalize fresh_id t.clock t.call
            (store_of normalize fresh_id t streak))
  claim_next_pending-Answer t streak open_ u =
      let tasks = listed normalize fresh_id t in
      let ms = candidates t.call tasks in
      let order = fair_order streak ms in
      let store : Store = record {
        tasks = tasks;
        shared = (expire_tasks normalize fresh_id t.clock t.tasks t.shared).1;
        streak = streak;
      } in
      let fits =
        fair_order-All (Fit normalize fresh_id t) streak ms
          (candidates-Fit normalize fresh_id t u) in
      let kept = as-counted normalize fresh_id t in
      rw (looped normalize fresh_id t streak open_) (
        answer t.clock t.call tasks streak
          (claim_first normalize fresh_id t.clock t.call tasks order store)
          (claim_first-Granted normalize fresh_id t.clock tasks t.call order store open_ fits kept)
          (λ w.
            subst
              (λ l.
                Claimed (λ m. Unit {0}) streak
                  (claim_first normalize fresh_id t.clock t.call tasks l store))
              (append-nil order)
              (claim_first-Claimed normalize fresh_id t.clock tasks (λ m. Unit {0}) t.call order []
                store open_
                (both_All normalize fresh_id (λ m. Unit {0}) t order
                  (units normalize fresh_id order) fits)
                kept (order-Any (Runnable t.clock t.call tasks) streak ms w))))
