-- ===== src/Tasks/Claims.antt =====
-- app/store.py: who may run a task and submit it.
use api.Base.{ℕ, Bool, true, false, String, ◌≡◌, refl, sym, subst, arith, str_eq}
use api.Tasks.Meta.{running, Meta}
use api.Tasks.Update.{
  update_meta_if, mark_running, can_run_task, begin_task_submission, release_task_submission,
  request_task_cancel,
}

module _ (worker : String) (now : ℕ) (m : Meta) where
  -- A task that one worker claimed, of a queue that is not paused, is claimed by no other: the second claim is
  -- refused, and among the workers only the first may run the task.
  pub claim-exclusive :
      (paused paused' : Bool) (other : String) (later : ℕ)
      → (mark_running paused worker now m).1 ≡ true
      → let claimed = (mark_running paused worker now m).0 in
        ((mark_running paused' other later claimed).1 ≡ false)
        × (can_run_task other claimed ≡ str_eq worker other)
  unfolding mark_running can_run_task
  claim-exclusive paused paused' other later h = ground arith

begin-granted :
    (now : ℕ) (m : Meta)
    → (begin_task_submission now m).1 ≡ true
    → let committing = (begin_task_submission now m).0 in
      (committing.status ≡ running)
      × (committing.cancel_requested ≡ false)
      × (committing.submit_phase ≡ "committing")
unfolding begin_task_submission
begin-granted now m h = ground arith

refused :
    (reason : String) (later : ℕ) (c : Meta)
    → c.status ≡ running
    → c.cancel_requested ≡ false
    → str_eq c.submit_phase "committing" ≡ true
    → ((begin_task_submission later c).1 ≡ false)
      × ((request_task_cancel reason false later c).1 ≡ false)
unfolding begin_task_submission request_task_cancel
refused reason later c s n p = (ground arith, ground arith)

released :
    (later : ℕ) (c : Meta)
    → c.status ≡ running
    → c.cancel_requested ≡ false
    → let free = release_task_submission later c in
      (free.status ≡ running) × (free.cancel_requested ≡ false) × (free.submit_phase ≡ "")
unfolding release_task_submission update_meta_if
released later c s n = ground arith

granted :
    (later : ℕ) (c : Meta)
    → c.status ≡ running
    → c.cancel_requested ≡ false
    → str_eq c.submit_phase "committing" ≡ false
    → (begin_task_submission later c).1 ≡ true
unfolding begin_task_submission
granted later c s n p = ground arith

-- Once a request to submit a task is granted, and until it is released, another is refused, and so is
-- a cancellation that does not allow submitted tasks; after a release the next request is granted.
pub submission-exclusive :
    (reason : String) (now later : ℕ) (m : Meta)
    → (begin_task_submission now m).1 ≡ true
    → let committing = (begin_task_submission now m).0 in
      ((begin_task_submission later committing).1 ≡ false)
      × ((request_task_cancel reason false later committing).1 ≡ false)
      × ((begin_task_submission later (release_task_submission later committing)).1 ≡ true)
submission-exclusive reason now later m h =
    let committing = (begin_task_submission now m).0 in
    let g = begin-granted now m h in
    let r = released later committing g.0 g.1 in
    let held = subst (λ p. str_eq p "committing" ≡ true) (sym g.2) refl in
    let free = subst (λ p. str_eq p "committing" ≡ false) (sym r.2) refl in
    (
      (refused reason later committing g.0 g.1 held).0,
      (refused reason later committing g.0 g.1 held).1,
      granted later (release_task_submission later committing) r.0 r.1 free,
    )

-- A task whose cancellation was accepted can be run by no worker, claimed by none and submitted by none.
pub cancel-final :
    (reason worker : String) (allow paused : Bool) (now later : ℕ) (m : Meta)
    → (request_task_cancel reason allow now m).1 ≡ true
    → let stopped = (request_task_cancel reason allow now m).0 in
      (can_run_task worker stopped ≡ false)
      × ((mark_running paused worker later stopped).1 ≡ false)
      × ((begin_task_submission later stopped).1 ≡ false)
unfolding request_task_cancel can_run_task mark_running begin_task_submission
cancel-final reason worker allow paused now later m h = ground arith
