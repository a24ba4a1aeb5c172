-- ===== src/Batch/Revision.antt =====
-- app/batch_jobs.py, `_mutate_job`: the revision that each change of a job is given.
use api.Base.{
  ℕ, ◌+◌, Bool, true, false, ◌&&◌, ◌||◌, not, Option, none, some, List, [], ◌∷◌, String, str_eq,
  leb, ◌==◌, if◌then◌else◌,
}
use api.Batch.Job.{
  RowStatus, queued, awaiting_assets, creating, running, completed, failed, canceled, JobStatus,
  job_queued, job_running, job_canceling, job_completed, job_canceled, Row, Settings, Job,
}

abbrev same_bool : Bool → Bool → Bool
same_bool true b = b
same_bool false b = not b

abbrev status_code : RowStatus → ℕ
status_code queued = 0
status_code awaiting_assets = 1
status_code creating = 2
status_code running = 3
status_code completed = 4
status_code failed = 5
status_code canceled = 6

abbrev job_status_code : JobStatus → ℕ
job_status_code job_queued = 0
job_status_code job_running = 1
job_status_code job_canceling = 2
job_status_code job_completed = 3
job_status_code job_canceled = 4

unfoldable pub same_list : List String → List String → Bool
same_list [] [] = true
same_list [] (y ∷ ys) = false
same_list (x ∷ xs) [] = false
same_list (x ∷ xs) (y ∷ ys) = str_eq x y && same_list xs ys

-- The keys of a row but its revision and the time of its update.
unfoldable pub same_row : Row → Row → Bool
same_row a b =
    a.index == b.index
    && a.client_index == b.client_index
    && a.sheet_row == b.sheet_row
    && str_eq a.prompt b.prompt
    && same_list a.image_files b.image_files
    && same_list a.image_names b.image_names
    && a.image_count == b.image_count
    && same_bool a.assets_ready b.assets_ready
    && status_code a.status == status_code b.status
    && str_eq a.task_id b.task_id
    && str_eq a.error b.error
    && str_eq a.video_url b.video_url
    && a.create_attempts == b.create_attempts
    && a.created_at == b.created_at
    && a.claimed_at == b.claimed_at
    && a.next_attempt_at == b.next_attempt_at
    && a.asset_requested_at == b.asset_requested_at
    && a.assets_uploaded_at == b.assets_uploaded_at
    && a.finished_at == b.finished_at

unfoldable pub same_settings : Settings → Settings → Bool
same_settings a b =
    str_eq a.id b.id
    && str_eq a.owner_token_hash b.owner_token_hash
    && str_eq a.ratio b.ratio
    && a.duration == b.duration
    && str_eq a.platform b.platform
    && str_eq a.model b.model
    && a.concurrency == b.concurrency
    && str_eq a.reference_id b.reference_id
    && a.reference_count == b.reference_count
    && str_eq a.reference_batch_id b.reference_batch_id
    && same_bool a.reference_is_real_person b.reference_is_real_person
    && a.created_at == b.created_at

-- The keys of a job but its rows, its revision and the time of its update.
unfoldable pub same_job : Job → Job → Bool
same_job a b =
    same_settings a.settings b.settings
    && job_status_code a.status == job_status_code b.status
    && a.canceled_at == b.canceled_at
    && a.finished_at == b.finished_at

-- `before_rows.get(index)`: of two rows with one index the later stands in the dictionary.
unfoldable pub row_before : ℕ → List Row → Option Row
row_before i [] = none
row_before i (row ∷ rows) = elim (row_before i rows) as (λ _. Option Row) [
  | none ↦ if row.index == i then some row else none
  | some later ↦ some later
]

unfoldable pub is_changed : List Row → Row → Bool
is_changed before row = elim (row_before row.index before) as (λ _. Bool) [
  | none ↦ true
  | some previous ↦ not (same_row row previous)
]

unfoldable pub any_changed : List Row → List Row → Bool
any_changed before [] = false
any_changed before (row ∷ rows) = is_changed before row || any_changed before rows

unfoldable pub stamp : List Row → ℕ → ℕ → List Row → List Row
stamp before revision now [] = []
stamp before revision now (row ∷ rows) =
    let rest = stamp before revision now rows in
    if is_changed before row
    then record row { revision = revision; updated_at = now } ∷ rest
    else row ∷ rest

-- `apply`, of what the mutator made of `before`.
unfoldable pub apply : ℕ → Job → Job → Job
apply now before job =
    let revision = before.revision + 1 in
    if any_changed before.rows job.rows || not (same_job job before)
    then record job {
      revision = revision;
      updated_at = now;
      rows = stamp before.rows revision now job.rows;
    }
    else job

-- `_mutate_job`, of a mutator with a result.
unfoldable pub mutate_job {ℓ} : {A : Type ℓ} → (Job → A × Job) → ℕ → Job → A × Job
mutate_job mutator now job = ((mutator job).0, apply now job (mutator job).1)

-- A row as `public_job` shows it, its revision beside it.
pub record PublicRow : Type 0 where
  pub index : ℕ
  pub client_index : ℕ
  pub sheet_row : ℕ
  pub prompt : String
  pub status : RowStatus
  pub task_id : String
  pub error : String
  pub video_url : String
  pub image_count : ℕ
  pub assets_required : Bool
  pub assets_ready : Bool

abbrev has_files : List String → Bool
has_files [] = false
has_files (f ∷ files) = true

abbrev is_awaiting : RowStatus → Bool
is_awaiting awaiting_assets = true
is_awaiting _ = false

unfoldable pub public_row : Row → PublicRow
public_row row =
    let sent = row.assets_ready || has_files row.image_files in
    record {
      index = row.index;
      client_index = row.client_index;
      sheet_row = row.sheet_row;
      prompt = row.prompt;
      status = row.status;
      task_id = row.task_id;
      error = row.error;
      video_url = row.video_url;
      image_count = row.image_count;
      assets_required = is_awaiting row.status && not sent;
      assets_ready = sent || row.image_count == 0;
    }

-- The rows that `public_job` shows to a reader of an earlier revision.
unfoldable pub rows_since : ℕ → List Row → List (PublicRow × ℕ)
unfolding public_row
rows_since since [] = []
rows_since since (row ∷ rows) =
    let rest = rows_since since rows in
    if leb row.revision since then rest else (public_row row, row.revision) ∷ rest
