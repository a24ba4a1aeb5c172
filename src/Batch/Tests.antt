-- ===== src/Batch/Tests.antt =====
-- A small job, what app/batch_jobs.py does with it, and instances of the theorems.
use api.Base.{ℕ, ◌≤◌, false, true, [], ◌∷◌, List, none, ◌≡◌, refl, arith}
use api.Base.Dict.{lookup}
use api.Batch.Job.{
  queued, creating, running, canceled, job_queued, job_running, Row, Job, finish_job_if_terminal,
  any_row, all_rows,
}
use api.Batch.Rows.{
  cancel_job, claim_row, find_row, update_first, is_due, lacks_assets, finish_row_creation,
  reconcile_job, reconcile_row,
}
use api.Batch.Revision.{apply}
use api.Batch.Event.{Event, claim, created, reconcile, mutate, run}
use api.Batch.Cancel.{NoneWaiting, cancel-stops}
use api.Batch.Delta.{AllKnown, mutate-AllKnown}

abbrev row : Row
row = record {
  index = 1;
  client_index = 0;
  sheet_row = 1;
  prompt = "a cat";
  image_files = [];
  image_names = [];
  image_count = 0;
  assets_ready = true;
  status = queued;
  task_id = "";
  error = "";
  video_url = "";
  create_attempts = 0;
  created_at = 0;
  claimed_at = 0;
  next_attempt_at = 0;
  asset_requested_at = 0;
  assets_uploaded_at = 0;
  finished_at = 0;
  revision = 1;
  updated_at = 10;
}

abbrev job : Job
job = record {
  settings = record {
    id = "j";
    owner_token_hash = "a";
    ratio = "9:16";
    duration = 15;
    platform = "dola";
    model = "Seedance 2.0";
    concurrency = 2;
    reference_id = "";
    reference_count = 0;
    reference_batch_id = "";
    reference_is_real_person = false;
    created_at = 10;
  };
  status = job_queued;
  rows = row ∷ record row { index = 2; sheet_row = 2; client_index = 1 } ∷ [];
  revision = 1;
  updated_at = 10;
  canceled_at = 0;
  finished_at = 0;
}

abbrev events : List (Event × ℕ)
events = (claim, 30) ∷ (created 2 "t2", 31) ∷ (reconcile [], 32) ∷ []

-- The first row is claimed.
claims :
    (claim_row 20 job).1.rows
    ≡ record row { status = creating; claimed_at = 20 }
      ∷ record row { index = 2; sheet_row = 2; client_index = 1 }
      ∷ []
unfolding claim_row find_row update_first is_due lacks_assets
claims = refl

-- A reconciliation calls a canceled job with a running row running again.
reconcile_running :
    (reconcile_job [] 30 (record job {
      canceled_at = 25;
      rows = record row { status = running; task_id = "t" } ∷ [];
    })).status
    ≡ job_running
unfolding reconcile_job reconcile_row finish_job_if_terminal any_row all_rows lookup
reconcile_running = refl

-- A row canceled while its task was being created runs all the same.
created_revives :
    (finish_row_creation 1 "t" 30
      (record job { canceled_at = 25; rows = record row { status = canceled } ∷ [] })).1.rows
    ≡ record row { status = running; task_id = "t"; created_at = 30 } ∷ []
unfolding finish_row_creation find_row update_first
created_revives = refl

cancel-stops_example :
    let stopped = (cancel_job "a" "" 25 job).1 in
    let after = run events (apply 25 job stopped) in
    NoneWaiting stopped.rows × (claim_row 40 after ≡ (none, after))
cancel-stops_example =
    cancel-stops "a" "" 25 40 events job refl (omega arith)
      (omega arith, (omega arith, (omega arith, tt)))

mutate-AllKnown_example :
    let after = apply 20 job (mutate claim 20 job) in
    (job.revision ≤ after.revision) × AllKnown job.revision job.rows after.rows
mutate-AllKnown_example = mutate-AllKnown claim 20 job
