-- ===== src/Tasks/Bounds.antt =====
-- app/store.py: the counters and the history of a task over a sequence of events.
use api.Base.{
  ℕ, ◌+◌, ◌-◌, ◌≤◌, max, List, [], ◌∷◌, String, arith, if◌then◌else◌, length, length-drop,
}
use api.Tasks.Meta.{
  Status, Attempt, Meta, is_terminal, append_attempt_history, max_infrastructure_retries,
  max_attempt_history, last_n,
}
use api.Tasks.Update.{update_meta_if}
use api.Tasks.Event.{
  Event, step, run, finalize, fail, retry, retry_infrastructure, retry_submitted, retry_proxy,
  retry_ambiguous, retry_timed_out,
}
use api.Tasks.Lifecycle.{handlers}

-- The last retry, beyond the limit, is the one that ends the task.
abbrev pub room : ℕ → Status → ℕ
room limit s = if is_terminal s then limit + 1 else limit

abbrev pub RetriesWithin : ℕ → Meta → Type 0
RetriesWithin limit m =
    (m.retry_count ≤ room limit m.status)
    × (m.infrastructure_retry_count ≤ room (max limit max_infrastructure_retries) m.status)
    × (m.result_timeout_retry_count ≤ m.retry_count)

-- The limits that a caller passes are at most the configured ones.
abbrev pub Fits : ℕ → Event → Type 0
Fits limit (retry_submitted most _ _) = most ≤ limit
Fits limit (retry_timed_out most _ _) = most ≤ limit
Fits limit (retry_ambiguous most _ _) = most ≤ limit
Fits limit _ = Unit

unfoldable pub opened : Unit {0}
unfolding handlers append_attempt_history update_meta_if
opened = tt

step-retries :
    (limit : ℕ) (event : Event) (now : ℕ) (m : Meta)
    → Fits limit event
    → RetriesWithin limit m
    → RetriesWithin limit (step limit event now m)
unfolding opened
step-retries limit finalize now m f h = ground arith
step-retries limit _ now m f h = ground arith

-- A history of at most twenty entries.
abbrev pub Bounded : Meta → Type 0
Bounded m = length m.attempt_history ≤ max_attempt_history

length-last_n : {A : Type 0} (n : ℕ) (xs : List A) → length (last_n n xs) ≤ n
length-last_n n xs = omega (arith, length-drop (length xs - n) xs)

append-Bounded :
    (now : ℕ) (reason kind : String) (m : Meta)
    → Bounded m
    → Bounded (append_attempt_history now reason kind m)
unfolding append_attempt_history
append-Bounded now reason kind m h = grind (arith, length-last_n {A = Attempt} max_attempt_history)

step-Bounded :
    (limit : ℕ) (event : Event) (now : ℕ) (m : Meta) → Bounded m → Bounded (step limit event now m)
unfolding handlers update_meta_if
step-Bounded limit finalize now m h = ground arith
step-Bounded limit (fail reason) now m h = grind (arith, append-Bounded)
step-Bounded limit (retry reason) now m h = grind (arith, append-Bounded)
step-Bounded limit (retry_infrastructure reason) now m h = grind (arith, append-Bounded)
step-Bounded limit (retry_submitted most reason delay) now m h = grind (arith, append-Bounded)
step-Bounded limit (retry_proxy reason account node delay) now m h = grind (arith, append-Bounded)
step-Bounded limit (retry_ambiguous most reason delay) now m h = grind (arith, append-Bounded)
step-Bounded limit (retry_timed_out most reason delay) now m h = grind (arith, append-Bounded)
step-Bounded limit _ now m h = ground arith

abbrev pub AllFit : ℕ → List (Event × ℕ) → Type 0
AllFit limit [] = Unit
AllFit limit (timed ∷ events) = Fits limit timed.0 × AllFit limit events

-- The events are all handlers but `record_execution_miss`. From a task whose counters are within
-- their limits, every sequence of events whose own limits are at most `limit` leads to one whose
-- counters are: at most `limit` retries while the task is not finished, at most the greater of `limit`
-- and six infrastructure retries, one more of each when it is finished, and no more result timeouts
-- than retries.
pub run-retries :
    (limit : ℕ) (events : List (Event × ℕ)) (m : Meta)
    → AllFit limit events
    → RetriesWithin limit m
    → RetriesWithin limit (run limit events m)
unfolding run
run-retries limit [] m f h = h
run-retries limit ((event, now) ∷ events) m f h =
    run-retries limit events (step limit event now m) f.1 (step-retries limit event now m f.0 h)

-- Every sequence of events, which are all handlers but `record_execution_miss`, keeps the attempt history within twenty entries.
pub run-Bounded :
    (limit : ℕ) (events : List (Event × ℕ)) (m : Meta) → Bounded m → Bounded (run limit events m)
unfolding run
run-Bounded limit [] m h = h
run-Bounded limit ((event, now) ∷ events) m h =
    run-Bounded limit events (step limit event now m) (step-Bounded limit event now m h)
