-- ===== src/Tasks/Retry.antt =====
-- app/store.py, the handlers that count a retry and send the task back to the queue or end it.
-- Each gives the new metadata and the count that it returns. `limit` is `task_retry_limit()`.
use api.Base.{
  ℕ, ◌+◌, ◌-◌, ◌*◌, ◌^◌, min, max, Bool, true, false, ◌&&◌, ◌||◌, not, Option, none, some, [], ◌∷◌,
  ◌++◌, String, str_eq, ltb, leb, if◌then◌else◌,
}
use api.Base.Text.{str_take}
use api.Tasks.Meta.{
  Status, pending, submitted, failed, Meta, str_or, set_default, last_n, is_terminal, is_pending,
  is_submitted, max_infrastructure_retries, normalized_failure_reason, append_attempt_history,
}
use api.Tasks.Update.{mem_string, mark_retry_queue_verified}

abbrev pub max_task_retries : ℕ
max_task_retries = 10

-- `task_retry_limit()`, of the configured value or of none that can be read.
unfoldable pub task_retry_limit : Option ℕ → ℕ
task_retry_limit none = 2
task_retry_limit (some n) = min max_task_retries n

-- `max_retries`, at most the configured limit.
abbrev pub retries_within : ℕ → Option ℕ → ℕ
retries_within limit none = limit
retries_within limit (some n) = min limit n

unfoldable pub set_retry_terminal : String → ℕ → Meta → Meta
set_retry_terminal reason now m =
    let terminal_reason = str_take 500 (str_or reason (str_or m.error "生成失败，请重试！")) in
    record m {
      status = failed;
      error = terminal_reason;
      execution_phase = "failed";
      status_reason = terminal_reason;
      queue_reason = "";
      queue_category = "";
      finished_at = now;
      phase_updated_at = now;
    }

-- `str(reason)` with the two reasons that have a text of their own.
abbrev pub retry_reason : Meta → String → String
retry_reason m reason =
    if str_eq reason "browser timeout"
    then normalized_failure_reason m "浏览器超时"
    else if str_eq reason "region restricted"
    then normalized_failure_reason m "Dola 当前地区不可用"
    else normalized_failure_reason m reason

abbrev is_settled : Status → Bool
is_settled submitted = true
is_settled s = is_terminal s

-- The state in which a retry waits, before its limit is looked at.
unfoldable pub count_retry : ℕ → String → ℕ → Meta → Meta
count_retry count reason now m = record m {
  retry_count = count;
  worker_id = "";
  error = reason;
  execution_phase = "retry_queued";
  status_reason = "正在重试中，请稍等！";
  phase_updated_at = now;
  updated_at = now;
  retry_started_at = set_default m.retry_started_at now;
}

unfoldable pub back_to_queue : ℕ → Meta → Meta
back_to_queue next_attempt_at m = record m {
  status = pending;
  finished_at = 0;
  next_attempt_at = next_attempt_at;
}

unfoldable pub record_retry : ℕ → String → ℕ → Meta → Meta × ℕ
unfolding count_retry set_retry_terminal back_to_queue
record_retry limit reason now m =
    let count = m.retry_count + 1 in
    let text = retry_reason m reason in
    let counted =
      count_retry count text now (append_attempt_history now text "execution_retry" m) in
    let after =
      if ltb limit count
      then set_retry_terminal text now counted
      else back_to_queue (now + 10 * 3 ^ (count - 1)) counted in
    if is_settled m.status then (m, m.retry_count) else (after, count)

unfoldable pub record_infrastructure_retry : String → ℕ → Meta → Meta × ℕ
unfolding set_retry_terminal back_to_queue
record_infrastructure_retry reason now m =
    let count = m.infrastructure_retry_count + 1 in
    let text = normalized_failure_reason m reason in
    let logged = append_attempt_history now text "infrastructure_retry" m in
    let counted = record logged {
      infrastructure_retry_count = count;
      infrastructure_error = text;
      worker_id = "";
      error = "";
      execution_phase = "retry_queued";
      status_reason = "正在重试中，请稍等！";
      phase_updated_at = now;
      updated_at = now;
      infrastructure_retry_started_at = set_default logged.infrastructure_retry_started_at now;
    } in
    let waiting = record (back_to_queue (now + min 120 (10 * 2 ^ (count - 1))) counted) {
      queue_reason = "服务连接异常，正在恢复";
      queue_category = "infrastructure";
    } in
    let after =
      if ltb max_infrastructure_retries count
      then set_retry_terminal "可用节点连续连接失败，请稍后重新提交" now counted
      else waiting in
    if is_settled m.status then (m, m.infrastructure_retry_count) else (after, count)

-- `requeue_pending_task`, with the queue of files, which always takes the task.
unfoldable pub requeue_pending_task : ℕ → Meta → Meta × Bool
unfolding mark_retry_queue_verified
requeue_pending_task now m =
    if not (is_pending m.status) || m.cancel_requested
    then (m, false)
    else ((mark_retry_queue_verified now m).0, true)

abbrev requeue_within : ℕ → ℕ → ℕ → Meta → Meta
requeue_within max_retries count now m =
    if leb count max_retries then (requeue_pending_task now m).0 else m

unfoldable pub retry_submitted_task : ℕ → String → ℕ → ℕ → Meta → Meta × ℕ
unfolding count_retry set_retry_terminal back_to_queue requeue_pending_task
retry_submitted_task max_retries reason delay_seconds now m =
    let count = m.retry_count + 1 in
    let logged = append_attempt_history now reason "result_retry" m in
    let counted = record (count_retry count reason now logged) { result_watch_miss_count = 0 } in
    let after =
      if ltb max_retries count
      then set_retry_terminal reason now counted
      else back_to_queue (now + delay_seconds * count) counted in
    if is_submitted m.status
    then (requeue_within max_retries count now after, count)
    else (m, m.retry_count)

-- The account is given as `strip().lower()` of the argument, the node as its `strip()`.
unfoldable pub retry_ambiguous_proxy_task : String → String → String → ℕ → ℕ → Meta → Meta × ℕ
unfolding back_to_queue requeue_pending_task mem_string
retry_ambiguous_proxy_task reason account_id proxy_node_id delay_seconds now m =
    let count = m.ambiguous_proxy_retry_count + 1 in
    let ids = m.ambiguous_proxy_avoid_node_ids in
    let avoided =
      if str_eq proxy_node_id "" || mem_string proxy_node_id ids
      then ids
      else ids ++ proxy_node_id ∷ [] in
    let logged = append_attempt_history now reason "proxy_refresh" m in
    let waiting = record (back_to_queue (now + max 1 delay_seconds) logged) {
      worker_id = "";
      error = "";
      execution_phase = "retry_queued";
      status_reason = "正在刷新API代理，任务已自动排队";
      submit_phase = "";
      queue_reason = "正在刷新API代理，任务已自动排队";
      queue_category = "proxy_refresh";
      ambiguous_proxy_retry_count = count;
      result_watch_miss_count = 0;
      updated_at = now;
      phase_updated_at = now;
      submit_started_at = 0;
      preferred_account_id = account_id;
      proxy_retry_avoid_node_id = proxy_node_id;
      ambiguous_proxy_avoid_node_ids = last_n 12 avoided;
    } in
    if is_submitted m.status
    then ((requeue_pending_task now waiting).0, count)
    else ((requeue_pending_task now m).0, m.ambiguous_proxy_retry_count)

unfoldable pub retry_ambiguous_submitted_task : ℕ → String → ℕ → ℕ → Meta → Meta × ℕ
unfolding set_retry_terminal back_to_queue requeue_pending_task
retry_ambiguous_submitted_task max_retries reason delay_seconds now m =
    let count = m.infrastructure_retry_count + 1 in
    let logged = append_attempt_history now reason "infrastructure_retry" m in
    let counted = record logged {
      infrastructure_retry_count = count;
      infrastructure_error = str_take 500 reason;
      worker_id = "";
      submit_phase = "";
      execution_phase = "retry_queued";
      status_reason = "正在重试中，请稍等！";
      ambiguous_proxy_retry_count = 0;
      result_watch_miss_count = 0;
      updated_at = now;
      phase_updated_at = now;
      submit_started_at = 0;
      preferred_account_id = "";
      ambiguous_proxy_avoid_node_ids = [];
      infrastructure_retry_started_at = set_default logged.infrastructure_retry_started_at now;
    } in
    let waiting = record (back_to_queue (now + max 1 delay_seconds * count) counted) {
      error = "";
      queue_reason = "提交状态未确认，正在安全重试";
      queue_category = "infrastructure";
    } in
    let after =
      if ltb max_retries count then set_retry_terminal "生成失败，请重试！" now counted else waiting in
    if is_submitted m.status then (requeue_within max_retries count now after, count) else (
      requeue_within max_retries m.infrastructure_retry_count now m,
      m.infrastructure_retry_count,
    )

unfoldable pub retry_timed_out_submitted_task : ℕ → String → ℕ → ℕ → Meta → Meta × ℕ
unfolding count_retry set_retry_terminal back_to_queue requeue_pending_task
retry_timed_out_submitted_task max_retries reason delay_seconds now m =
    let count = max m.retry_count m.result_timeout_retry_count + 1 in
    let logged = append_attempt_history now reason "result_timeout" m in
    let counted = record (count_retry count reason now logged) {
      result_timeout_retry_count = m.result_timeout_retry_count + 1;
      result_watch_miss_count = 0;
      retry_queued_at = now;
    } in
    let after =
      if ltb max_retries count
      then set_retry_terminal reason now counted
      else back_to_queue (now + delay_seconds * count) counted in
    if is_submitted m.status && not m.cancel_requested
    then (requeue_within max_retries count now after, count)
    else (m, m.result_timeout_retry_count)

unfoldable pub record_execution_miss : ℕ → String → ℕ → Meta → Meta × ℕ
record_execution_miss limit reason now m =
    let count = m.retry_count + 1 in
    let missed = record m {
      worker_id = "";
      retry_count = count;
      execution_miss_count = m.execution_miss_count + 1;
      updated_at = now;
      retry_started_at = set_default m.retry_started_at now;
    } in
    let ended = record missed {
      status = failed;
      error = "任务超时未执行";
      execution_phase = "failed";
      status_reason = "任务超时未执行";
      queue_reason = "";
      queue_category = "";
      finished_at = now;
      phase_updated_at = now;
    } in
    (if ltb limit count then ended else record missed { status = pending; error = reason }, count)

unfoldable pub record_result_watch_miss : String → ℕ → Meta → Meta × ℕ
record_result_watch_miss reason now m =
    let count = m.result_watch_miss_count + 1 in
    (
      record m {
        result_watch_miss_count = count;
        updated_at = now;
        error = if is_terminal m.status then m.error else reason;
      },
      count,
    )
