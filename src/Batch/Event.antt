-- ===== src/Batch/Event.antt =====
-- app/batch_jobs.py: every call that changes a job as an event, each under `_mutate_job`.
use api.Base.{ℕ, Bool, List, [], ◌∷◌, String}
use api.Base.Dict.{Dict}
use api.Batch.Job.{Job}
use api.Batch.Rows.{
  TaskPayload, cancel_job, recover_stale_creating_rows, claim_row, mark_row_assets_ready,
  finish_row_creation, fail_or_requeue_row, reconcile_job,
}
use api.Batch.Revision.{apply}

pub data Event : Type 0 where
  cancel : (owner reason : String) → Event
  recover : (max_age_seconds : ℕ) → Event
  claim : Event
  assets_ready : (owner : String) (row_index : ℕ) (files names : List String) → Event
  created : (row_index : ℕ) (task_id : String) → Event
  creation_failed : (row_index : ℕ) (error : String) (retry : Bool) → Event
  reconcile : Dict TaskPayload → Event

unfoldable pub mutate : Event → ℕ → Job → Job
mutate (cancel owner reason) now job = (cancel_job owner reason now job).1
mutate (recover max_age) now job = recover_stale_creating_rows max_age now job
mutate claim now job = (claim_row now job).1
mutate (assets_ready owner i files names) now job =
    (mark_row_assets_ready owner i files names now job).1
mutate (created i task_id) now job = (finish_row_creation i task_id now job).1
mutate (creation_failed i error retry) now job = fail_or_requeue_row i error retry now job
mutate (reconcile tasks) now job = reconcile_job tasks now job

unfoldable pub run : List (Event × ℕ) → Job → Job
unfolding mutate apply
run [] job = job
run ((event, now) ∷ events) job = run events (apply now job (mutate event now job))
