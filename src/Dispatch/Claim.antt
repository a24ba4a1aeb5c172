-- ===== src/Dispatch/Claim.antt =====
-- app/store.py, `claim_next_pending`: the tasks that wait, first those that were never tried and after
-- some of them a retry, and the first of them that may run. `paused` is `task_submission_paused()`, of
-- one reading. The lock of the claim is taken, so a call is one step.
use Prim.Native.Nat.{lt, eq, gt}
use Prim.Native.String.{compare}
use api.Base.{
  ℕ, ◌+◌, max, Bool, true, false, ◌&&◌, ◌||◌, not, Option, none, some, List, [], ◌∷◌, ◌++◌, String,
  str_eq, ltb, leb, ◌==◌, if◌then◌else◌,
}
use api.Base.Dict.{Dict, lookup}
use api.Tasks.Meta.{Meta, is_running, is_pending, is_retry, is_task_expired, time_or}
use api.Tasks.Update.{mark_running, mem_string}
use api.Dispatch.Expire.{StoredTask, Shared, Clock, expire_task_if_timeout, expire_tasks}

abbrev pub initial_claim_burst : ℕ
initial_claim_burst = 3

-- The arguments of a call: who claims, the tasks that it leaves out, and the counts and limits by owner.
pub record Call : Type 0 where
  pub worker_id : String
  pub claimed_ids : List String
  pub token_active_counts : Dict ℕ
  pub token_concurrency_limits : Dict ℕ
  pub paused : Bool

abbrev count_or_zero : Option ℕ → ℕ
count_or_zero none = 0
count_or_zero (some n) = n

-- `running_counts.get(owner, 0)`
unfoldable pub running_count : String → List StoredTask → ℕ
running_count owner [] = 0
running_count owner (t ∷ tasks) =
    let later = running_count owner tasks in
    if is_running t.metadata.status && str_eq t.metadata.owner_token_hash owner
    then later + 1
    else later

-- `active_counts.get(owner, 0)`
unfoldable pub active_count : Call → List StoredTask → String → ℕ
active_count call tasks owner =
    max (count_or_zero (lookup owner call.token_active_counts)) (running_count owner tasks)

unfoldable pub at_limit : Call → List StoredTask → String → Bool
at_limit call tasks owner =
    not (str_eq owner "") && elim (lookup owner call.token_concurrency_limits) as (λ _. Bool) [
      | none ↦ false
      | some limit ↦ leb limit (active_count call tasks owner)
    ]

abbrev priority_at : Meta → ℕ
priority_at m = time_or m.queue_priority_at (time_or m.created_at m.queued_at)

abbrev str_before : String → String → Bool
str_before s t = elim (compare s t) as (λ _. Bool) [ lt ↦ true | eq ↦ false | gt ↦ false ]

-- The order of the sort of the candidates.
unfoldable pub is_before : Meta → Meta → Bool
is_before m n =
    ltb (priority_at m) (priority_at n)
    || priority_at m == priority_at n
      && (ltb m.created_at n.created_at || m.created_at == n.created_at && str_before m.id n.id)

unfoldable pub insert_candidate : Meta → List Meta → List Meta
insert_candidate m [] = m ∷ []
insert_candidate m (n ∷ rest) =
    let later = insert_candidate m rest in if is_before n m then n ∷ later else m ∷ n ∷ rest

-- The candidates, in their order.
unfoldable pub candidates : Call → List StoredTask → List Meta
candidates call [] = []
candidates call (t ∷ tasks) =
    let later = candidates call tasks in
    if not (mem_string t.metadata.id call.claimed_ids) && is_pending t.metadata.status
    then insert_candidate t.metadata later
    else later

-- The candidates that are retries, or those that are not.
unfoldable pub only : Bool → List Meta → List Meta
only retry [] = []
only retry (m ∷ rest) =
    let later = only retry rest in
    if retry
    then (if is_retry m then m ∷ later else later)
    else if is_retry m
    then later
    else m ∷ later

abbrev pub is_empty : List Meta → Bool
is_empty [] = true
is_empty (m ∷ rest) = false

-- Retries come first once the streak of others is long enough.
unfoldable pub fair_order : ℕ → List Meta → List Meta
fair_order streak ms =
    if leb initial_claim_burst streak && not (is_empty (only true ms))
    then only true ms ++ only false ms
    else only false ms ++ only true ms

-- `mark_running` of the task with the identifier, in the store.
unfoldable pub mark_running_task :
    (paused : Bool) → (id worker_id : String) → ℕ → List StoredTask → Bool × List StoredTask
mark_running_task paused id worker_id now [] = (false, [])
mark_running_task paused id worker_id now (t ∷ tasks) =
    let marked = mark_running paused worker_id now t.metadata in
    let later = mark_running_task paused id worker_id now tasks in
    if str_eq t.metadata.id id
    then (marked.1, record t { metadata = marked.0 } ∷ tasks)
    else (later.0, t ∷ later.1)

-- The store as a call finds and leaves it. `streak` is `_FILE_INITIAL_CLAIM_STREAK`.
pub record Store : Type 0 where
  pub tasks : List StoredTask
  pub shared : Shared
  pub streak : ℕ

module _ (normalize : String → String) (fresh_id : String → String) (clock : Clock) where
  -- `expire_task_if_timeout` of the task with the identifier.
  unfoldable pub expire_task : String → List StoredTask → Shared → List StoredTask × Shared
  expire_task id [] shared = ([], shared)
  expire_task id (t ∷ tasks) shared =
      let here = expire_task_if_timeout normalize fresh_id clock t shared in
      let later = expire_task id tasks shared in
      if str_eq t.metadata.id id then (here.1 ∷ tasks, here.2) else (t ∷ later.0, later.1)

  abbrev pub is_early : Meta → Bool
  is_early m = not (m.next_attempt_at == 0) && ltb clock.now m.next_attempt_at

  -- The loop over the candidates; `counted` are the tasks that were counted before it. What is
  -- claimed is given as it was before the claim; the source gives its identifier.
  unfoldable pub claim_first :
      Call → (counted : List StoredTask) → List Meta → Store → Option Meta × Store
  claim_first call counted [] store = (none, store)
  claim_first call counted (m ∷ rest) store =
      let expired = expire_task m.id store.tasks store.shared in
      let marked = mark_running_task call.paused m.id call.worker_id clock.now store.tasks in
      let is_old = not (is_early m) && is_task_expired clock.now m in
      let next =
        claim_first call counted rest
          (if is_old then record store { tasks = expired.0; shared = expired.1 } else store) in
      let claimed = record store {
        tasks = marked.1;
        streak = if is_retry m then 0 else store.streak + 1;
      } in
      if is_early m
        || is_old
        || at_limit call counted m.owner_token_hash
        || m.cancel_requested
        || not marked.0
      then next
      else (some m, claimed)

  unfoldable pub claim_next_pending : Call → Store → Option Meta × Store
  claim_next_pending call store =
      let listed = expire_tasks normalize fresh_id clock store.tasks store.shared in
      let listed_store = record store { tasks = listed.0; shared = listed.1 } in
      if call.paused
      then (none, store)
      else claim_first call listed.0 (fair_order store.streak (candidates call listed.0))
          listed_store
