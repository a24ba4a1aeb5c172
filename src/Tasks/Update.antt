-- ===== src/Tasks/Update.antt =====
-- app/store.py, the handlers that move a task between its states without counting a retry. Each
-- gives the new metadata, where a handler refuses the old.
use api.Base.{
  ℕ, ◌+◌, min, max, Bool, true, false, ◌&&◌, ◌||◌, not, List, [], ◌∷◌, ◌++◌, String, str_eq, ltb,
  ◌==◌, if◌then◌else◌,
}
use api.Base.Text.{str_take}
use api.Tasks.Meta.{
  Status, initializing, pending, running, submitted, success, failed, canceled, Meta, str_or,
  is_running, is_pending, is_submitted, normalized_failure_reason, append_attempt_history,
}

-- `update_meta_if`: the update of a task in one of the expected states, and whether it was made.
unfoldable pub update_meta_if : (Status → Bool) → (Meta → Meta) → ℕ → Meta → Meta × Bool
update_meta_if expected updates now m =
    if expected m.status then (record (updates m) { updated_at = now }, true) else (m, false)

abbrev pub waits_or_runs : Status → Bool
waits_or_runs pending = true
waits_or_runs running = true
waits_or_runs _ = false

abbrev pub can_succeed : Status → Bool
can_succeed running = true
can_succeed submitted = true
can_succeed _ = false

abbrev pub can_fail : Status → Bool
can_fail success = false
can_fail canceled = false
can_fail _ = true

abbrev pub is_failed : Status → Bool
is_failed failed = true
is_failed _ = false

abbrev pub is_initializing : Status → Bool
is_initializing initializing = true
is_initializing _ = false

unfoldable pub set_execution_phase : String → String → ℕ → Meta → Meta × Bool
unfolding update_meta_if
set_execution_phase phase reason now =
    update_meta_if is_running
      (λ m. record m {
        execution_phase = str_take 80 phase;
        status_reason = str_take 200 reason;
        phase_updated_at = now;
      })
      now

unfoldable pub mark_retry_queue_verified : ℕ → Meta → Meta × Bool
unfolding update_meta_if
mark_retry_queue_verified now =
    update_meta_if is_pending
      (λ m. record m {
        execution_phase = "retry_queued";
        status_reason = "重试已入队，等待执行";
        retry_queue_verified_at = now;
        phase_updated_at = now;
      })
      now

-- `paused` is `task_submission_paused()`; the limits are not read with the tasks in files.
unfoldable pub mark_running : Bool → String → ℕ → Meta → Meta × Bool
mark_running paused worker_id now m =
    let claimed = record m {
      status = running;
      worker_id = worker_id;
      error = "";
      execution_phase = "waiting_account";
      status_reason = "正在分配生成资源";
      submit_phase = "";
      queue_reason = "";
      queue_category = "";
      attempt = m.attempt + 1;
      execution_miss_count = 0;
      claimed_at = now;
      started_at = now;
      updated_at = now;
      phase_updated_at = now;
      submit_started_at = 0;
      retry_attempt_started_at = if ltb 0 m.retry_count then now else 0;
      retry_queue_verified_at = 0;
    } in
    if paused || not (is_pending m.status) || m.cancel_requested
    then (m, false)
    else (claimed, true)

unfoldable pub mark_pending : String → ℕ → Meta → Meta
unfolding update_meta_if
mark_pending reason now m =
    (update_meta_if waits_or_runs
      (λ m. record m {
        status = pending;
        worker_id = "";
        error = reason;
        execution_phase = "queued";
        status_reason = "正在重新排队";
        queued_at = now;
        phase_updated_at = now;
      })
      now m).0

unfoldable pub defer_task : String → String → ℕ → ℕ → Meta → Meta
unfolding update_meta_if
defer_task reason category delay_seconds now m =
    (update_meta_if waits_or_runs
      (λ m. record m {
        status = pending;
        worker_id = "";
        error = "";
        queue_reason = str_take 200 (str_or reason "任务排队中");
        queue_category = str_take 40 (str_or category "queue");
        next_attempt_at = now + max 1 delay_seconds;
      })
      now m).0

unfoldable pub mark_failed : String → ℕ → Meta → Meta
mark_failed reason now m =
    let normalized = normalized_failure_reason m reason in
    let logged = append_attempt_history now normalized "terminal" m in
    if can_fail m.status
    then record logged {
      status = failed;
      worker_id = "";
      error = normalized;
      execution_phase = "failed";
      status_reason = normalized;
      finished_at = now;
      updated_at = now;
      phase_updated_at = now;
    }
    else m

unfoldable pub mark_canceled : String → ℕ → Meta → Meta
unfolding update_meta_if
mark_canceled reason now m =
    (update_meta_if waits_or_runs
      (λ m. record m { status = canceled; worker_id = ""; error = reason; finished_at = now }) now
      m).0

unfoldable pub mark_cancel_requested : String → ℕ → Meta → Meta
mark_cancel_requested reason now m = record m {
  cancel_requested = true;
  error = reason;
  updated_at = now;
}

unfoldable pub can_run_task : String → Meta → Bool
can_run_task worker_id m =
    is_running m.status && str_eq m.worker_id worker_id && not m.cancel_requested

unfoldable pub begin_task_submission : ℕ → Meta → Meta × Bool
begin_task_submission now m =
    if not (is_running m.status) || m.cancel_requested || str_eq m.submit_phase "committing"
    then (m, false)
    else (record m { submit_phase = "committing"; updated_at = now; submit_started_at = now }, true)

unfoldable pub release_task_submission : ℕ → Meta → Meta
unfolding update_meta_if
release_task_submission now m =
    (update_meta_if is_running (λ m. record m { submit_phase = ""; submit_started_at = 0 }) now m).0

unfoldable pub request_task_cancel : String → Bool → ℕ → Meta → Meta × Bool
request_task_cancel reason allow_submitted now m =
    let cancelable = waits_or_runs m.status || allow_submitted && is_submitted m.status in
    let committing = not allow_submitted && str_eq m.submit_phase "committing" in
    let canceled_meta = record m {
      status = canceled;
      worker_id = "";
      cancel_requested = true;
      error = reason;
      execution_phase = "canceled";
      status_reason = reason;
      finished_at = now;
      updated_at = now;
      phase_updated_at = now;
    } in
    if not cancelable || committing then (m, false) else (canceled_meta, true)

unfoldable pub mem_string : String → List String → Bool
mem_string s [] = false
mem_string s (t ∷ rest) = if str_eq t s then true else mem_string s rest

unfoldable pub record_failed_account : String → ℕ → Meta → Meta
unfolding mem_string
record_failed_account account_id now m =
    let ids = m.failed_account_ids in
    if str_eq account_id "" then m else record m {
      failed_account_ids = if mem_string account_id ids then ids else ids ++ account_id ∷ [];
      updated_at = now;
    }

-- `has_video` is whether the result holds a decoded address; the reference images that a success
-- compacts are files, which no other handler reads.
unfoldable pub mark_success : Bool → ℕ → Meta → Meta
unfolding update_meta_if
mark_success has_video now m =
    let updated =
      (update_meta_if can_succeed
        (λ m. record m {
          status = success;
          worker_id = "";
          error = "";
          execution_phase = "completed";
          status_reason = "视频生成成功";
          finished_at = now;
          phase_updated_at = now;
        })
        now m).0 in
    if has_video then updated else m

unfoldable pub mark_late_result_success : Bool → ℕ → Meta → Meta
unfolding update_meta_if
mark_late_result_success has_video now m =
    let updated =
      (update_meta_if is_failed
        (λ m. record m {
          status = success;
          worker_id = "";
          error = "";
          execution_phase = "completed";
          status_reason = "视频生成成功";
          finished_at = now;
          phase_updated_at = now;
          late_result_watch_until = 0;
        })
        now m).0 in
    if has_video then updated else m

unfoldable pub mark_submitted : ℕ → ℕ → Meta → Meta
unfolding update_meta_if
mark_submitted result_poll_delay_seconds now m =
    let delay : ℕ = if result_poll_delay_seconds == 0 then 45 else result_poll_delay_seconds in
    (update_meta_if is_running
      (λ m. record m {
        status = submitted;
        worker_id = "";
        error = "等待生成结果";
        execution_phase = "waiting_result";
        status_reason = "生成请求已提交，正在等待结果";
        submit_phase = "submitted";
        result_watch_miss_count = 0;
        submitted_at = now;
        finished_at = 0;
        phase_updated_at = now;
        next_result_poll_at = now + max 5 (min 120 delay);
      })
      now m).0

-- `finalize_task_creation`: an exception, here `false`, unless the task is being created.
unfoldable pub finalize_task_creation : ℕ → Meta → Meta × Bool
finalize_task_creation now m =
    if is_initializing m.status
    then (record m { status = pending; queued_at = now; updated_at = now }, true)
    else (m, false)

unfoldable pub fail_initializing : String → ℕ → Meta → Meta × Bool
unfolding update_meta_if
fail_initializing reason now =
    update_meta_if is_initializing
      (λ m. record m { status = failed; worker_id = ""; error = reason; finished_at = now }) now

-- One task of `reset_running_tasks`, after a restart of the service; `was_submitted` is what its
-- result says.
unfoldable pub reset_running : Bool → ℕ → Meta → Meta
unfolding update_meta_if mark_pending
reset_running was_submitted now m =
    let resumed =
      (update_meta_if is_running
        (λ m. record m {
          status = submitted;
          worker_id = "";
          error = "等待生成结果";
          submitted_at = if m.submitted_at == 0 then now else m.submitted_at;
          finished_at = 0;
          next_result_poll_at = now + 15;
        })
        now m).0 in
    let requeued = mark_pending "service restarted" now m in
    if is_running m.status then (if was_submitted then resumed else requeued) else m
