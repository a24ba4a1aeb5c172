-- ===== src/Tasks/Lifecycle.antt =====
-- app/store.py: the moves between states that the handlers make.
use api.Base.{ℕ, Bool, true, false, List, [], ◌∷◌, ◌≡◌, sym, ◌∙◌, subst, arith}
use api.Tasks.Meta.{Status, success, canceled, Meta}
use api.Tasks.Update.{
  set_execution_phase, mark_retry_queue_verified, mark_running, mark_pending, defer_task,
  mark_failed, mark_canceled, mark_cancel_requested, begin_task_submission, release_task_submission,
  request_task_cancel, record_failed_account, mark_success, mark_late_result_success,
  mark_submitted, finalize_task_creation, fail_initializing, reset_running,
}
use api.Tasks.Retry.{
  record_retry, record_infrastructure_retry, requeue_pending_task, retry_submitted_task,
  retry_ambiguous_proxy_task, retry_ambiguous_submitted_task, retry_timed_out_submitted_task,
  record_execution_miss, record_result_watch_miss,
}
use api.Tasks.Event.{Event, step, allowed, run, finalize}

unfoldable pub handlers : Unit {0}
unfolding step set_execution_phase mark_retry_queue_verified mark_running mark_pending defer_task
    mark_failed mark_canceled mark_cancel_requested begin_task_submission release_task_submission
    request_task_cancel record_failed_account mark_success mark_late_result_success mark_submitted
    finalize_task_creation fail_initializing reset_running record_retry record_infrastructure_retry
    requeue_pending_task retry_submitted_task retry_ambiguous_proxy_task
    retry_ambiguous_submitted_task retry_timed_out_submitted_task record_execution_miss
    record_result_watch_miss
handlers = tt

-- Every handler but `record_execution_miss` moves a task only as its life allows.
pub step-allowed :
    (limit : ℕ) (event : Event) (now : ℕ) (m : Meta)
    → allowed m.status (step limit event now m).status ≡ true
unfolding handlers
step-allowed limit finalize now m = ground arith
step-allowed limit _ now m = ground arith

-- The states that are never left.
abbrev pub is_final : Status → Bool
is_final success = true
is_final canceled = true
is_final _ = false

final-allowed : (s t : Status) → is_final s ≡ true → allowed s t ≡ true → t ≡ s
final-allowed s t f h = ground arith

-- A task that succeeded or was canceled stays so, whatever events follow. The events are all handlers
-- but `record_execution_miss`, which looks at no status.
pub run-final :
    (limit : ℕ) (events : List (Event × ℕ)) (m : Meta)
    → is_final m.status ≡ true
    → (run limit events m).status ≡ m.status
unfolding run
run-final limit [] m f = λ i. m.status
run-final limit ((event, now) ∷ events) m f =
    let next = step limit event now m in
    let same : next.status ≡ m.status =
      final-allowed m.status next.status f (step-allowed limit event now m) in
    run-final limit events next (subst (λ s. is_final s ≡ true) (sym same) f) ∙ same
