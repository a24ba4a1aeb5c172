-- ===== src/Batch/Cancel.antt =====
-- app/batch_jobs.py: what a cancellation does to a job, whatever follows.
use api.Base.{
  ℕ, ◌<◌, true, false, ◌&&◌, none, List, [], ◌∷◌, String, str_eq, ◌≡◌, sym, subst, arith, map,
  Option-cases, inl, inr,
}
use api.Batch.Job.{Job, Row, is_waiting, finish_job_if_terminal}
use api.Batch.Rows.{
  cancel_row, cancel_job, recover_stale_creating_rows, claim_row, mark_row_assets_ready, find_row,
  has_index, finish_row_creation, fail_or_requeue_row, reconcile_job,
}
use api.Batch.Revision.{apply}
use api.Batch.Event.{
  Event, cancel, recover, claim, assets_ready, created, creation_failed, reconcile, mutate, run,
}

-- No row is left that waits for a task.
abbrev pub NoneWaiting : List Row → Type 0
NoneWaiting [] = Unit
NoneWaiting (row ∷ rows) =
    (is_waiting row.status && str_eq row.task_id "" ≡ false) × NoneWaiting rows

cancel_row-waiting :
    (reason : String) (now : ℕ) (row : Row)
    → let after = cancel_row reason now row in
      is_waiting after.status && str_eq after.task_id "" ≡ false
unfolding cancel_row
cancel_row-waiting reason now row = ground arith

cancel_rows-waiting :
    (reason : String) (now : ℕ) (rows : List Row) → NoneWaiting (map (cancel_row reason now) rows)
cancel_rows-waiting reason now [] = tt
cancel_rows-waiting reason now (row ∷ rows) =
    (cancel_row-waiting reason now row, cancel_rows-waiting reason now rows)

finish-canceled_at :
    (now : ℕ) (job : Job) → (finish_job_if_terminal now job).canceled_at ≡ job.canceled_at
unfolding finish_job_if_terminal
finish-canceled_at now job = ground arith

apply-canceled_at :
    (now : ℕ) (before job : Job) → (apply now before job).canceled_at ≡ job.canceled_at
unfolding apply
apply-canceled_at now before job = ground arith

claim-canceled : (now : ℕ) (job : Job) → 0 < job.canceled_at → claim_row now job ≡ (none, job)
unfolding claim_row
claim-canceled now job h = ground arith

mutate-canceled :
    (event : Event) (now : ℕ) (job : Job)
    → 0 < now
    → 0 < job.canceled_at
    → 0 < (mutate event now job).canceled_at
unfolding mutate cancel_job recover_stale_creating_rows mark_row_assets_ready finish_row_creation
    fail_or_requeue_row reconcile_job
mutate-canceled (cancel owner reason) now job t h = ground arith
mutate-canceled (recover age) now job t h = h
mutate-canceled claim now job t h = ground (arith, claim-canceled now job)
mutate-canceled (assets_ready owner i files names) now job t h = ground arith
mutate-canceled (created i task) now job t h =
    elim (Option-cases (find_row (has_index i) job.rows)) [
      | inl e ↦ ground arith
      | inr (row, e) ↦ ground arith
    ]
mutate-canceled (creation_failed i error retry) now job t h =
    elim (Option-cases (find_row (has_index i) job.rows)) [
      | inl e ↦ ground arith
      | inr (row, e) ↦ grind (arith, finish-canceled_at)
    ]
mutate-canceled (reconcile tasks) now job t h = grind (arith, finish-canceled_at)

-- Every event has a time.
abbrev pub Timed : List (Event × ℕ) → Type 0
Timed [] = Unit
Timed (timed ∷ events) = (0 < timed.1) × Timed events

run-canceled :
    (events : List (Event × ℕ)) (job : Job)
    → Timed events
    → 0 < job.canceled_at
    → 0 < (run events job).canceled_at
unfolding run
run-canceled [] job t h = h
run-canceled ((event, now) ∷ events) job t h =
    let changed = mutate event now job in
    run-canceled events (apply now job changed) t.1
      (ground (arith, apply-canceled_at now job changed, mutate-canceled event now job))

-- Once the owner of a job cancels it, no row is left that waits for a task, and whatever calls
-- follow, none of its rows is claimed. The calls are made at times after the epoch.
pub cancel-stops :
    (owner reason : String) (now later : ℕ) (events : List (Event × ℕ)) (job : Job)
    → str_eq job.settings.owner_token_hash owner ≡ true
    → 0 < now
    → Timed events
    → let canceled = (cancel_job owner reason now job).1 in
      let after = run events (apply now job canceled) in
      NoneWaiting canceled.rows × (claim_row later after ≡ (none, after))
unfolding cancel_job
cancel-stops owner reason now later events job o t timed =
    let canceled = (cancel_job owner reason now job).1 in
    let after = run events (apply now job canceled) in
    let rows : canceled.rows ≡ map (cancel_row reason now) job.rows = ground arith in
    let at_now : canceled.canceled_at ≡ now = ground arith in
    (
      subst NoneWaiting (sym rows) (cancel_rows-waiting reason now job.rows),
      claim-canceled later after (
          run-canceled events (apply now job canceled) timed
            (ground (arith, at_now, apply-canceled_at now job canceled))),
    )
