-- ===== src/Dispatch/Once.antt =====
-- app/store.py, `expire_task_if_timeout`: a task that was expired.
use api.Base.{ℕ, true, false, String, ◌≡◌, refl, arith}
use api.Tasks.Meta.{Meta, is_task_expired, is_terminal}
use api.Tasks.Update.{mark_failed}
use api.Dispatch.Expire.{StoredTask, Shared, Clock, expire_task_if_timeout}

expired-terminal :
    (reason : String) (now : ℕ) (m : Meta)
    → is_task_expired now m ≡ true
    → is_terminal (mark_failed reason now m).status ≡ true
unfolding is_task_expired mark_failed
expired-terminal reason now m h = ground arith

terminal_kept : (now : ℕ) (m : Meta) → is_terminal m.status ≡ true → is_task_expired now m ≡ false
unfolding is_task_expired
terminal_kept now m h = ground arith

module _ (normalize : String → String) (fresh_id again_id : String → String)
    (clock later : Clock) where
  -- A task that was expired is over.
  expire-terminal :
      (t : StoredTask) (shared : Shared)
      → (expire_task_if_timeout normalize fresh_id clock t shared).0 ≡ true
      → is_terminal (expire_task_if_timeout normalize fresh_id clock t shared).1.metadata.status
        ≡ true
  unfolding expire_task_if_timeout
  expire-terminal t shared h = grind (arith, expired-terminal)

  expire_over :
      (u : StoredTask) (after : Shared)
      → is_terminal u.metadata.status ≡ true
      → expire_task_if_timeout normalize again_id later u after ≡ (false, u, after)
  unfolding expire_task_if_timeout
  expire_over u after over = rw (terminal_kept later.now u.metadata over) refl

  -- A task that was expired is not expired again: a later call returns False and changes neither the task
  -- nor the accounts, the tokens and the ledger.
  pub expire_once :
      (t : StoredTask) (shared after : Shared)
      → (expire_task_if_timeout normalize fresh_id clock t shared).0 ≡ true
      → expire_task_if_timeout normalize again_id later
          (expire_task_if_timeout normalize fresh_id clock t shared).1
          after
        ≡ (false, (expire_task_if_timeout normalize fresh_id clock t shared).1, after)
  expire_once t shared after h =
      expire_over (expire_task_if_timeout normalize fresh_id clock t shared).1 after
        (expire-terminal t shared h)
