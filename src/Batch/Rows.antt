-- ===== src/Batch/Rows.antt =====
-- app/batch_jobs.py, the mutators that `_mutate_job` applies to a job under its lock; `now` is the
-- time of the call. What they change of a row they change of the first row with its index.
use api.Base.{
  ℕ, ◌+◌, ◌^◌, min, max, Bool, true, false, ◌&&◌, ◌||◌, not, Option, none, some, List, [], ◌∷◌,
  String, str_eq, ltb, leb, ◌==◌, if◌then◌else◌, length, map,
}
use api.Base.Text.{str_take, strip}
use api.Base.Dict.{Dict, lookup}
use api.Base.Result.{Result, ok, err}
use api.Batch.Job.{
  RowStatus, queued, awaiting_assets, creating, running, completed, failed, canceled, job_running,
  job_canceling, job_canceled, Row, Job, is_terminal, is_queued, is_creating, is_running,
  is_waiting, is_open, any_row, finish_job_if_terminal,
}

pub data Error : Type 0 where
  permission_error job_is_canceled row_not_found image_count_mismatch : Error

abbrev pub str_or : String → String → String
str_or s d = if str_eq s "" then d else s

unfoldable pub cancel_row : String → ℕ → Row → Row
cancel_row reason now row =
    if is_waiting row.status && str_eq row.task_id ""
    then record row {
      status = canceled;
      error = str_take 500 (str_or reason "用户停止批量生成");
      finished_at = now;
    }
    else row

unfoldable pub cancel_job : String → String → ℕ → Job → Result Error (Unit {0}) × Job
cancel_job owner reason now job =
    let rows = map (cancel_row reason now) job.rows in
    let stopped = record job {
      canceled_at = now;
      rows = rows;
      status = if any_row is_running rows then job_canceling else job_canceled;
    } in
    if str_eq job.settings.owner_token_hash owner
    then (ok tt, stopped)
    else (err permission_error, job)

-- `recover_stale_creating_rows`, one job; a claim without a time counts as stale.
unfoldable pub recover_row : ℕ → ℕ → Row → Row
recover_row max_age_seconds now row =
    if is_creating row.status
      && str_eq row.task_id ""
      && (row.claimed_at == 0 || leb (row.claimed_at + max 10 max_age_seconds) now)
    then record row { status = queued; claimed_at = 0; error = "" }
    else row

unfoldable pub recover_stale_creating_rows : ℕ → ℕ → Job → Job
recover_stale_creating_rows max_age_seconds now job = record job {
  rows = map (recover_row max_age_seconds now) job.rows;
}

-- `queued` and due.
unfoldable pub is_due : ℕ → Row → Bool
is_due now row = is_queued row.status && (row.next_attempt_at == 0 || leb row.next_attempt_at now)

abbrev no_files : List String → Bool
no_files [] = true
no_files (f ∷ files) = false

-- Whether images of the row are still to be sent.
unfoldable pub lacks_assets : Row → Bool
lacks_assets row = ltb 0 row.image_count && not row.assets_ready && no_files row.image_files

-- The rows with the first one that passes the test changed.
unfoldable pub update_first : (Row → Bool) → (Row → Row) → List Row → List Row
update_first p f [] = []
update_first p f (row ∷ rows) =
    let rest = update_first p f rows in if p row then f row ∷ rows else row ∷ rest

unfoldable pub find_row : (Row → Bool) → List Row → Option Row
find_row p [] = none
find_row p (row ∷ rows) = if p row then some row else find_row p rows

abbrev pub start_row : ℕ → Row → Row
start_row now row = record row {
  status = creating;
  claimed_at = now;
  next_attempt_at = 0;
  error = "";
}

abbrev pub ask_assets : ℕ → Row → Row
ask_assets now row = record row {
  status = awaiting_assets;
  asset_requested_at = now;
  claimed_at = 0;
  error = "";
}

abbrev pub is_ready : ℕ → Row → Bool
is_ready now row = is_due now row && not (lacks_assets row)

abbrev pub is_lacking : ℕ → Row → Bool
is_lacking now row = is_due now row && lacks_assets row

pub record Claim : Type 0 where
  pub row : Row
  pub awaiting_assets : Bool

-- `claim_next_row`, one job: the first due row with its images, else the first due row without.
unfoldable pub claim_row : ℕ → Job → Option Claim × Job
claim_row now job =
    let changed : (Row → Bool) → (Row → Row) → Job =
      λ p f. record job { rows = update_first p f job.rows; status = job_running } in
    if not (is_open job.status) || not (job.canceled_at == 0)
    then (none, job)
    else elim (find_row (is_ready now) job.rows) as (λ _. Option Claim × Job) [
      | some row ↦ (
        some (record { row = start_row now row; awaiting_assets = false }),
        changed (is_ready now) (start_row now),
      )
      | none ↦ elim (find_row (is_lacking now) job.rows) as (λ _. Option Claim × Job) [
        | some row ↦ (
          some (record { row = ask_assets now row; awaiting_assets = true }),
          changed (is_lacking now) (ask_assets now),
        )
        | none ↦ (none, job)
      ]
    ]

abbrev pub has_index : ℕ → Row → Bool
has_index i row = row.index == i

abbrev pub put_assets : List String → List String → ℕ → Row → Row
put_assets files names now row = record row {
  status = queued;
  image_files = files;
  image_names = map (λ name. str_take 180 (strip name)) names;
  assets_ready = true;
  asset_requested_at = 0;
  assets_uploaded_at = now;
  error = "";
}

unfoldable pub mark_row_assets_ready :
    String → ℕ → List String → List String → ℕ → Job → Result Error Row × Job
mark_row_assets_ready owner i files names now job =
    let put = put_assets files names now in
    let changed = record job {
      rows = update_first (has_index i) put job.rows;
      status = job_running;
    } in
    if not (str_eq job.settings.owner_token_hash owner)
    then (err permission_error, job)
    else if not (job.canceled_at == 0)
    then (err job_is_canceled, job)
    else elim (find_row (has_index i) job.rows) as (λ _. Result Error Row × Job) [
      | none ↦ (err row_not_found, job)
      | some row ↦
          if not (str_eq row.task_id "")
          then (err row_not_found, job)
          else if row.image_count == 0
              || not (length files == row.image_count)
              || not (length names == row.image_count)
          then (err image_count_mismatch, job)
          else (ok (put row), changed)
    ]

abbrev pub created_row : String → ℕ → Row → Row
created_row task_id now row = record row {
  status = running;
  task_id = task_id;
  created_at = now;
  claimed_at = 0;
  error = "";
}

unfoldable pub finish_row_creation : ℕ → String → ℕ → Job → Result Error (Unit {0}) × Job
finish_row_creation i task_id now job =
    let changed = record job {
      rows = update_first (has_index i) (created_row task_id now) job.rows;
      status = if job.canceled_at == 0 then job_running else job_canceling;
    } in
    elim (find_row (has_index i) job.rows) as (λ _. Result Error (Unit {0}) × Job) [
      | none ↦ (err row_not_found, job)
      | some row ↦ (ok tt, changed)
    ]

-- The row after a failed attempt: queued again after a delay, or failed for good.
unfoldable pub failed_row : String → Bool → ℕ → Row → Row
failed_row error again now row =
    let attempts = row.create_attempts + 1 in
    let requeued = record row {
      create_attempts = attempts;
      status = queued;
      task_id = "";
      claimed_at = 0;
      next_attempt_at = now + min 30 (2 ^ attempts);
      error = str_take 500 error;
    } in
    let ended = record row {
      create_attempts = attempts;
      status = failed;
      task_id = "";
      claimed_at = 0;
      error = str_take 500 error;
      finished_at = now;
    } in
    if again && ltb attempts 5 then requeued else ended

unfoldable pub fail_or_requeue_row : ℕ → String → Bool → ℕ → Job → Job
fail_or_requeue_row i error retry now job =
    let change = failed_row error (retry && job.canceled_at == 0) now in
    let changed =
      finish_job_if_terminal now
        (record job { rows = update_first (has_index i) change job.rows }) in
    elim (find_row (has_index i) job.rows) as (λ _. Job) [
      | none ↦ job
      | some row ↦ if is_terminal row.status then job else changed
    ]

-- What is known of a task: its status, the address of its video and its error.
pub data TaskStatus : Type 0 where
  task_failed task_canceled task_other : TaskStatus

pub record TaskPayload : Type 0 where
  pub status : TaskStatus
  pub video_url : String
  pub error : String

unfoldable pub settle_row : TaskPayload → ℕ → Row → Row
settle_row task now row =
    let settled : RowStatus → String → Row = λ s default. record row {
      status = s;
      error = str_take 500 (str_or task.error default);
      finished_at = now;
    } in
    if not (str_eq task.video_url "")
    then record row {
      status = completed;
      video_url = task.video_url;
      error = "";
      finished_at = now;
    }
    else elim task.status as (λ _. Row) [
      | task_failed ↦ settled failed "生成失败"
      | task_canceled ↦ settled canceled "用户取消生成"
      | task_other ↦ record row { status = running }
    ]

unfoldable pub reconcile_row : Dict TaskPayload → ℕ → Row → Row
reconcile_row tasks now row =
    if str_eq row.task_id "" || is_terminal row.status
    then row
    else elim (lookup row.task_id tasks) as (λ _. Row) [
      | none ↦ row
      | some task ↦ settle_row task now row
    ]

unfoldable pub reconcile_job : Dict TaskPayload → ℕ → Job → Job
reconcile_job tasks now job =
    finish_job_if_terminal now (record job { rows = map (reconcile_row tasks now) job.rows })
