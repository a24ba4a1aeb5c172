-- ===== src/Batch/Job.antt =====
-- app/batch_jobs.py, a job and its rows. Times are instants in seconds, 0 for the empty text, and an
-- absent key is the empty value: every update of a row that brings in a key also changes another.
use api.Base.{ℕ, Bool, true, false, ◌&&◌, ◌||◌, not, List, [], ◌∷◌, String, if◌then◌else◌, ◌==◌}

pub data RowStatus : Type 0 where
  queued awaiting_assets creating running completed failed canceled : RowStatus

pub data JobStatus : Type 0 where
  job_queued job_running job_canceling job_completed job_canceled : JobStatus

pub record Row : Type 0 where
  pub index : ℕ
  pub client_index : ℕ
  pub sheet_row : ℕ
  pub prompt : String
  pub image_files : List String
  pub image_names : List String
  pub image_count : ℕ
  pub assets_ready : Bool
  pub status : RowStatus
  pub task_id : String
  pub error : String
  pub video_url : String
  pub create_attempts : ℕ
  pub created_at : ℕ
  pub claimed_at : ℕ
  pub next_attempt_at : ℕ
  pub asset_requested_at : ℕ
  pub assets_uploaded_at : ℕ
  pub finished_at : ℕ
  pub revision : ℕ
  pub updated_at : ℕ

-- What the handlers leave as `create_job` made it stands in `Settings`.
pub record Settings : Type 0 where
  pub id : String
  pub owner_token_hash : String
  pub ratio : String
  pub duration : ℕ
  pub platform : String
  pub model : String
  pub concurrency : ℕ
  pub reference_id : String
  pub reference_count : ℕ
  pub reference_batch_id : String
  pub reference_is_real_person : Bool
  pub created_at : ℕ

pub record Job : Type 0 where
  pub settings : Settings
  pub status : JobStatus
  pub rows : List Row
  pub revision : ℕ
  pub updated_at : ℕ
  pub canceled_at : ℕ
  pub finished_at : ℕ

-- `TERMINAL_ROW_STATUSES`
abbrev pub is_terminal : RowStatus → Bool
is_terminal completed = true
is_terminal failed = true
is_terminal canceled = true
is_terminal _ = false

abbrev pub is_queued : RowStatus → Bool
is_queued queued = true
is_queued _ = false

abbrev pub is_creating : RowStatus → Bool
is_creating creating = true
is_creating _ = false

abbrev pub is_running : RowStatus → Bool
is_running running = true
is_running _ = false

abbrev pub is_canceled : RowStatus → Bool
is_canceled canceled = true
is_canceled _ = false

-- A row that no task stands for yet.
abbrev pub is_waiting : RowStatus → Bool
is_waiting queued = true
is_waiting awaiting_assets = true
is_waiting creating = true
is_waiting _ = false

-- A job of which rows may be claimed.
abbrev pub is_open : JobStatus → Bool
is_open job_queued = true
is_open job_running = true
is_open _ = false

unfoldable pub any_row : (RowStatus → Bool) → List Row → Bool
any_row p [] = false
any_row p (r ∷ rows) = p r.status || any_row p rows

unfoldable pub all_rows : (RowStatus → Bool) → List Row → Bool
all_rows p [] = true
all_rows p (r ∷ rows) = p r.status && all_rows p rows

abbrev pub no_rows : List Row → Bool
no_rows [] = true
no_rows (r ∷ rows) = false

-- `_finish_job_if_terminal`
unfoldable pub finish_job_if_terminal : ℕ → Job → Job
finish_job_if_terminal now job =
    let all_canceled = not (job.canceled_at == 0) && all_rows is_canceled job.rows in
    let finished = record job {
      status = if all_canceled then job_canceled else job_completed;
      finished_at = now;
    } in
    if not (no_rows job.rows) && all_rows is_terminal job.rows
    then finished
    else if any_row is_creating job.rows || any_row is_running job.rows
    then record job { status = job_running }
    else record job { status = job_queued }
