-- ===== src/Tasks/Meta.antt =====
-- app/store.py, the metadata of a task and what is read from it. Times are instants in seconds, 0
-- for the empty text; `now` is the time of the call, for each of its reads of the clock. Counters
-- are those that the program wrote: none is negative, and 0 is also an absent one. The texts that
-- the program itself writes as reasons are kept as they stand.
use Prim.Native.String.{◌++◌ as str_append}
use api.Base.{
  ℕ, ◌+◌, ◌-◌, ◌*◌, Bool, true, false, ◌&&◌, ◌||◌, not, List, [], ◌∷◌, ◌++◌, String, str_eq, ltb,
  leb, ◌==◌, if◌then◌else◌, length, drop,
}
use api.Base.Text.{strip, str_take}

pub data Status : Type 0 where
  initializing pending running submitted success failed canceled : Status

-- An entry of `attempt_history`.
pub record Attempt : Type 0 where
  pub at : ℕ
  pub kind : String
  pub reason : String
  pub phase : String
  pub worker_id : String
  pub retry_count : ℕ
  pub infrastructure_retry_count : ℕ

pub record Meta : Type 0 where
  pub id : String
  pub owner_token_hash : String
  pub status : Status
  pub worker_id : String
  pub cancel_requested : Bool
  pub error : String
  pub execution_phase : String
  pub status_reason : String
  pub submit_phase : String
  pub queue_reason : String
  pub queue_category : String
  pub infrastructure_error : String
  pub attempt : ℕ
  pub retry_count : ℕ
  pub infrastructure_retry_count : ℕ
  pub result_timeout_retry_count : ℕ
  pub ambiguous_proxy_retry_count : ℕ
  pub execution_miss_count : ℕ
  pub result_watch_miss_count : ℕ
  pub created_at : ℕ
  pub queued_at : ℕ
  pub queue_priority_at : ℕ
  pub claimed_at : ℕ
  pub started_at : ℕ
  pub submitted_at : ℕ
  pub finished_at : ℕ
  pub updated_at : ℕ
  pub phase_updated_at : ℕ
  pub next_attempt_at : ℕ
  pub next_result_poll_at : ℕ
  pub submit_started_at : ℕ
  pub retry_started_at : ℕ
  pub retry_queued_at : ℕ
  pub retry_attempt_started_at : ℕ
  pub retry_queue_verified_at : ℕ
  pub infrastructure_retry_started_at : ℕ
  pub late_result_watch_until : ℕ
  pub retry_of_task_id : String
  pub preferred_account_id : String
  pub proxy_retry_avoid_node_id : String
  pub failed_account_ids : List String
  pub ambiguous_proxy_avoid_node_ids : List String
  pub attempt_history : List Attempt
  pub last_attempt_error : String
  pub last_attempt_kind : String
  pub last_attempt_at : ℕ

abbrev pub max_attempt_history : ℕ
max_attempt_history = 20

abbrev pub max_infrastructure_retries : ℕ
max_infrastructure_retries = 6

-- `first or second`, of texts and of times.
abbrev pub str_or : String → String → String
str_or s d = if str_eq s "" then d else s

abbrev pub time_or : ℕ → ℕ → ℕ
time_or t d = if t == 0 then d else t

-- `meta.setdefault(key, value)` of a time.
abbrev pub set_default : ℕ → ℕ → ℕ
set_default old new = if old == 0 then new else old

abbrev pub last_n {ℓ} : {A : Type ℓ} → ℕ → List A → List A
last_n n xs = drop (length xs - n) xs

abbrev pub is_terminal : Status → Bool
is_terminal success = true
is_terminal failed = true
is_terminal canceled = true
is_terminal _ = false

abbrev pub is_running : Status → Bool
is_running running = true
is_running _ = false

abbrev pub is_pending : Status → Bool
is_pending pending = true
is_pending _ = false

abbrev pub is_submitted : Status → Bool
is_submitted submitted = true
is_submitted _ = false

-- `is_task_expired`: three hours from creation, or half an hour from the start of a retry.
unfoldable pub is_task_expired : ℕ → Meta → Bool
is_task_expired now m =
    let retry_origin =
      time_or m.retry_attempt_started_at
        (time_or m.claimed_at (time_or m.retry_started_at m.created_at)) in
    if is_terminal m.status
    then false
    else if ltb 0 m.retry_count && (is_running m.status || is_submitted m.status)
    then not (retry_origin == 0) && leb (retry_origin + 30 * 60) now
    else not (m.created_at == 0) && leb (m.created_at + 3 * 60 * 60) now

unfoldable pub normalized_failure_reason : Meta → String → String
unfolding strip
normalized_failure_reason m reason =
    let normalized = str_take 500 (strip reason) in
    let phase =
      str_or (str_take 80 (strip (str_or m.execution_phase (str_or m.submit_phase "unknown"))))
        "unknown" in
    if str_eq normalized ""
    then str_append "任务执行失败但未返回错误详情（阶段：" (str_append phase "）")
    else normalized

unfoldable pub append_attempt_history : ℕ → String → String → Meta → Meta
unfolding strip
append_attempt_history now reason kind m =
    let normalized = str_take 1000 (strip reason) in
    let entry : Attempt = record {
      at = now;
      kind = str_take 40 (str_or kind "failure");
      reason = normalized;
      phase = str_take 80 (str_or m.execution_phase m.submit_phase);
      worker_id = str_take 120 m.worker_id;
      retry_count = m.retry_count;
      infrastructure_retry_count = m.infrastructure_retry_count;
    } in
    if str_eq normalized "" then m else record m {
      attempt_history = last_n max_attempt_history (m.attempt_history ++ entry ∷ []);
      last_attempt_error = normalized;
      last_attempt_kind = entry.kind;
      last_attempt_at = now;
    }

-- The retry order and the queues tell retries from first attempts.
unfoldable pub is_retry : Meta → Bool
is_retry m =
    ltb 0 m.retry_count || ltb 0 m.infrastructure_retry_count || not (str_eq m.retry_of_task_id "")
