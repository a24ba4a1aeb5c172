-- ===== src/Tasks/Tests.antt =====
-- A small task, what app/store.py does with it, and instances of the theorems.
use api.Base.{ℕ, ◌+◌, ◌≤◌, true, false, [], ◌∷◌, List, String, ◌≡◌, refl, str_eq, arith}
use api.Tasks.Meta.{pending, running, success, failed, Meta, normalized_failure_reason}
use api.Tasks.Create.{new_meta}
use api.Tasks.Update.{
  mark_running, can_run_task, begin_task_submission, release_task_submission, request_task_cancel,
}
use api.Tasks.Retry.{record_execution_miss}
use api.Tasks.Event.{Event, step, allowed, run, claim, submit, retry, retry_timed_out}
use api.Tasks.Lifecycle.{step-allowed, run-final}
use api.Tasks.Bounds.{RetriesWithin, Bounded, run-retries, run-Bounded, opened}
use api.Tasks.Update.{mem_string}
use api.Tasks.Outcome.{Outcome, marks, occurrences, marks-granted}
use api.Tasks.Claims.{claim-exclusive, submission-exclusive, cancel-final}

abbrev task : Meta
task = new_meta "t1" "a" true 100

abbrev busy : Meta
busy = record task { status = running; worker_id = "w1" }

abbrev done : Meta
done = record task { status = success }

-- Claimed, submitted, timed out, and retried until the limit of two ends it.
abbrev life : List (Event × ℕ)
life =
    (claim false "w1", 110)
    ∷ (retry "browser timeout", 120)
    ∷ (claim false "w2", 140)
    ∷ (submit 0, 150)
    ∷ (retry_timed_out 2 "late" 5, 160)
    ∷ (claim false "w1", 180)
    ∷ (retry "again", 190)
    ∷ []

life_ends :
    let m = run 2 life task in
    (m.status ≡ failed) × (◌≡◌ {A = ℕ} m.retry_count 3) × (◌≡◌ {A = ℕ} m.attempt 3)
unfolding run opened normalized_failure_reason
life_ends = (refl, refl, refl)

-- `record_execution_miss` alone puts a finished task back into the queue.
miss_reopens : ((record_execution_miss 2 "missed" 200 done).0).status ≡ pending
unfolding record_execution_miss
miss_reopens = refl

step-allowed_example : allowed busy.status (step 2 (retry "x") 120 busy).status ≡ true
step-allowed_example = step-allowed 2 (retry "x") 120 busy

run-final_example : (run 2 life done).status ≡ done.status
run-final_example = run-final 2 life done refl

run-retries_example : RetriesWithin 2 (run 2 life task)
run-retries_example =
    run-retries 2 life task (tt, (tt, (tt, (tt, (omega arith, (tt, (tt, tt)))))))
      (omega arith, omega arith, omega arith)

run-Bounded_example : Bounded (run 2 life task)
run-Bounded_example = run-Bounded 2 life task (omega arith)

claim-exclusive_example :
    let claimed = (mark_running false "w1" 110 task).0 in
    ((mark_running false "w2" 111 claimed).1 ≡ false)
    × (can_run_task "w2" claimed ≡ str_eq "w1" "w2")
unfolding mark_running
claim-exclusive_example = claim-exclusive "w1" 110 task false false "w2" 111 refl

submission-exclusive_example :
    let committing = (begin_task_submission 120 busy).0 in
    ((begin_task_submission 121 committing).1 ≡ false)
    × ((request_task_cancel "stop" false 121 committing).1 ≡ false)
    × ((begin_task_submission 121 (release_task_submission 121 committing)).1 ≡ true)
unfolding begin_task_submission
submission-exclusive_example = submission-exclusive "stop" 120 121 busy refl

cancel-final_example :
    let stopped = (request_task_cancel "stop" false 120 busy).0 in
    (can_run_task "w1" stopped ≡ false)
    × ((mark_running false "w1" 121 stopped).1 ≡ false)
    × ((begin_task_submission 121 stopped).1 ≡ false)
unfolding request_task_cancel
cancel-final_example = cancel-final "stop" "w1" false false 120 121 busy refl

abbrev outcome : Outcome
outcome = record {
  flags = [];
  account_quota_refunded = false;
  account_quota_refunded_ids = "b" ∷ [];
  updated_at = 1;
}

abbrev refund_calls : List (String × ℕ)
refund_calls = ("a", 2) ∷ ("b", 3) ∷ ("a", 4) ∷ []

-- The first of the two calls of one account is granted.
one_refund : ◌≡◌ {A = ℕ} (marks true "a" refund_calls outcome).0 1
unfolding marks mem_string
one_refund = refl

marks-granted_example :
    let after = marks true "a" refund_calls outcome in
    (after.0 + occurrences "a" outcome.account_quota_refunded_ids
      ≡ occurrences "a" after.1.account_quota_refunded_ids)
    × (occurrences "a" after.1.account_quota_refunded_ids ≤ 1)
unfolding occurrences
marks-granted_example = marks-granted true "a" refund_calls outcome (omega arith)
