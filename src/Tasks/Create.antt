-- ===== src/Tasks/Create.antt =====
-- app/store.py, `create_task`: the metadata of a new task.
use api.Base.{ℕ, Bool, false, [], String, if◌then◌else◌}
use api.Tasks.Meta.{Meta, initializing, pending}

-- A task that is put into the queue at once, or one whose images are still to come.
abbrev pub new_meta : (id owner : String) → (enqueue : Bool) → ℕ → Meta
new_meta id owner enqueue now = record {
  id = id;
  owner_token_hash = owner;
  status = if enqueue then pending else initializing;
  worker_id = "";
  cancel_requested = false;
  error = "";
  execution_phase = "";
  status_reason = "";
  submit_phase = "";
  queue_reason = "";
  queue_category = "";
  infrastructure_error = "";
  attempt = 0;
  retry_count = 0;
  infrastructure_retry_count = 0;
  result_timeout_retry_count = 0;
  ambiguous_proxy_retry_count = 0;
  execution_miss_count = 0;
  result_watch_miss_count = 0;
  created_at = now;
  queued_at = now;
  queue_priority_at = now;
  claimed_at = 0;
  started_at = 0;
  submitted_at = 0;
  finished_at = 0;
  updated_at = now;
  phase_updated_at = 0;
  next_attempt_at = 0;
  next_result_poll_at = 0;
  submit_started_at = 0;
  retry_started_at = 0;
  retry_queued_at = 0;
  retry_attempt_started_at = 0;
  retry_queue_verified_at = 0;
  infrastructure_retry_started_at = 0;
  late_result_watch_until = 0;
  retry_of_task_id = "";
  preferred_account_id = "";
  proxy_retry_avoid_node_id = "";
  failed_account_ids = [];
  ambiguous_proxy_avoid_node_ids = [];
  attempt_history = [];
  last_attempt_error = "";
  last_attempt_kind = "";
  last_attempt_at = 0;
}
