-- ===== src/Tasks/Event.antt =====
-- app/store.py: every handler of a task as an event, and the moves between states that they make.
use api.Base.{ℕ, Bool, true, false, List, [], ◌∷◌, String}
use api.Tasks.Meta.{
  Status, initializing, pending, running, submitted, success, failed, canceled, Meta,
}
use api.Tasks.Update.{
  set_execution_phase, mark_retry_queue_verified, mark_running, mark_pending, defer_task,
  mark_failed, mark_canceled, mark_cancel_requested, begin_task_submission, release_task_submission,
  request_task_cancel, record_failed_account, mark_success, mark_late_result_success,
  mark_submitted, finalize_task_creation, fail_initializing, reset_running,
}
use api.Tasks.Retry.{
  record_retry, record_infrastructure_retry, requeue_pending_task, retry_submitted_task,
  retry_ambiguous_proxy_task, retry_ambiguous_submitted_task, retry_timed_out_submitted_task,
  record_result_watch_miss,
}

-- `record_execution_miss` stands apart: it looks at no state.
pub data Event : Type 0 where
  finalize : Event
  fail_creation : String → Event
  claim : (paused : Bool) (worker : String) → Event
  set_phase : (phase reason : String) → Event
  verify_retry requeue begin_submission release_submission : Event
  back_to_pending : String → Event
  defer : (reason category : String) (delay : ℕ) → Event
  submit : ℕ → Event
  restart : (was_submitted : Bool) → Event
  fail : String → Event
  cancel : String → Event
  ask_cancel : String → Event
  request_cancel : String → (allow_submitted : Bool) → Event
  blame_account : String → Event
  succeed : (has_video : Bool) → Event
  succeed_late : (has_video : Bool) → Event
  retry : String → Event
  retry_infrastructure : String → Event
  retry_submitted : (max_retries : ℕ) → String → ℕ → Event
  retry_proxy : (reason account node : String) (delay : ℕ) → Event
  retry_ambiguous : (max_retries : ℕ) → String → ℕ → Event
  retry_timed_out : (max_retries : ℕ) → String → ℕ → Event
  watch_miss : String → Event

unfoldable pub step : ℕ → Event → ℕ → Meta → Meta
step limit finalize now m = (finalize_task_creation now m).0
step limit (fail_creation reason) now m = (fail_initializing reason now m).0
step limit (claim paused worker) now m = (mark_running paused worker now m).0
step limit (set_phase phase reason) now m = (set_execution_phase phase reason now m).0
step limit verify_retry now m = (mark_retry_queue_verified now m).0
step limit requeue now m = (requeue_pending_task now m).0
step limit begin_submission now m = (begin_task_submission now m).0
step limit release_submission now m = release_task_submission now m
step limit (back_to_pending reason) now m = mark_pending reason now m
step limit (defer reason category delay) now m = defer_task reason category delay now m
step limit (submit delay) now m = mark_submitted delay now m
step limit (restart was_submitted) now m = reset_running was_submitted now m
step limit (fail reason) now m = mark_failed reason now m
step limit (cancel reason) now m = mark_canceled reason now m
step limit (ask_cancel reason) now m = mark_cancel_requested reason now m
step limit (request_cancel reason allow) now m = (request_task_cancel reason allow now m).0
step limit (blame_account account) now m = record_failed_account account now m
step limit (succeed has_video) now m = mark_success has_video now m
step limit (succeed_late has_video) now m = mark_late_result_success has_video now m
step limit (retry reason) now m = (record_retry limit reason now m).0
step limit (retry_infrastructure reason) now m = (record_infrastructure_retry reason now m).0
step limit (retry_submitted most reason delay) now m =
    (retry_submitted_task most reason delay now m).0
step limit (retry_proxy reason account node delay) now m =
    (retry_ambiguous_proxy_task reason account node delay now m).0
step limit (retry_ambiguous most reason delay) now m =
    (retry_ambiguous_submitted_task most reason delay now m).0
step limit (retry_timed_out most reason delay) now m =
    (retry_timed_out_submitted_task most reason delay now m).0
step limit (watch_miss reason) now m = (record_result_watch_miss reason now m).0

-- The moves that the life of a task allows.
abbrev pub allowed : Status → Status → Bool
allowed initializing initializing = true
allowed initializing pending = true
allowed initializing failed = true
allowed pending pending = true
allowed pending running = true
allowed pending failed = true
allowed pending canceled = true
allowed running running = true
allowed running pending = true
allowed running submitted = true
allowed running success = true
allowed running failed = true
allowed running canceled = true
allowed submitted submitted = true
allowed submitted pending = true
allowed submitted success = true
allowed submitted failed = true
allowed submitted canceled = true
allowed failed failed = true
allowed failed success = true
allowed success success = true
allowed canceled canceled = true
allowed _ _ = false

-- A sequence of events, each with its time.
unfoldable pub run : ℕ → List (Event × ℕ) → Meta → Meta
unfolding step
run limit [] m = m
run limit ((event, now) ∷ events) m = run limit events (step limit event now m)
