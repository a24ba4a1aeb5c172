-- ===== src/Dispatch/Kept.antt =====
-- app/store.py: what expiring a task keeps, its identifier and every other task.
use api.Base.{ℕ, true, false, List, [], ◌∷◌, String, str_eq, eq_iff, ◌≡◌, refl, arith}
use api.Tasks.Meta.{Meta, append_attempt_history}
use api.Tasks.Update.{mark_failed}
use api.Dispatch.Expire.{StoredTask, Shared, Clock, expire_task_if_timeout, expire_tasks}
use api.Dispatch.Claim.{expire_task}
use api.Dispatch.Waiting.{found, is_absent, Unique}

mark_failed-id : (reason : String) (now : ℕ) (m : Meta) → (mark_failed reason now m).id ≡ m.id
unfolding mark_failed append_attempt_history
mark_failed-id reason now m = ground arith

module _ (normalize : String → String) (fresh_id : String → String) (clock : Clock) where
  pub expire-id :
      (t : StoredTask) (shared : Shared)
      → (expire_task_if_timeout normalize fresh_id clock t shared).1.metadata.id ≡ t.metadata.id
  unfolding expire_task_if_timeout
  expire-id t shared = grind (arith, mark_failed-id)

  expire_tasks-absent :
      (id : String) (tasks : List StoredTask) (shared : Shared)
      → is_absent id tasks ≡ true
      → is_absent id (expire_tasks normalize fresh_id clock tasks shared).0 ≡ true
  unfolding expire_tasks is_absent
  expire_tasks-absent id [] shared h = refl
  expire_tasks-absent id (t ∷ tasks) shared h =
      let here = expire_task_if_timeout normalize fresh_id clock t shared in
      ground (arith, expire-id t shared, expire_tasks-absent id tasks here.2 (ground arith))

  pub expire_tasks-Unique :
      (tasks : List StoredTask) (shared : Shared)
      → Unique tasks
      → Unique (expire_tasks normalize fresh_id clock tasks shared).0
  unfolding expire_tasks
  expire_tasks-Unique [] shared u = tt
  expire_tasks-Unique (t ∷ tasks) shared u =
      let here = expire_task_if_timeout normalize fresh_id clock t shared in
      let absent = expire_tasks-absent t.metadata.id tasks here.2 u.0 in
      (rw (expire-id t shared) absent, expire_tasks-Unique tasks here.2 u.1)

  -- A task with another identifier is found as before.
  pub expire_task-found :
      (i j : String) (tasks : List StoredTask) (shared : Shared)
      → str_eq i j ≡ false
      → found j (expire_task normalize fresh_id clock i tasks shared).0 ≡ found j tasks
  unfolding expire_task found
  expire_task-found i j [] shared n = refl
  expire_task-found i j (t ∷ tasks) shared n = ground (
    arith,
    expire-id t shared,
    eq_iff t.metadata.id i,
    eq_iff t.metadata.id j,
    eq_iff i j,
    expire_task-found i j tasks shared n,
  )
