-- ===== src/Dispatch/Tests.antt =====
-- app/store.py: tasks that wait, claims in turn, and instances of the theorems.
use api.Base.{true, false, some, [], ◌∷◌, String, ◌≡◌, refl, arith, inl, inr, Any}
use api.Tasks.Meta.{Meta, is_retry, is_task_expired}
use api.Tasks.Create.{new_meta}
use api.Tasks.Update.{mem_string, mark_running}
use api.Tasks.Outcome.{Outcome}
use api.Dispatch.Expire.{StoredTask, Shared, Clock, expire_task_if_timeout, expire_tasks}
use api.Dispatch.Claim.{
  Call, is_before, insert_candidate, candidates, at_limit, claim_next_pending, claim_first,
  fair_order, only, mark_running_task,
}
use api.Dispatch.Waiting.{is_absent}
use api.Dispatch.Burst.{Turn, RetryWaits, RetryIn, listed, store_of, claims, claims-retry}
use api.Dispatch.Granted.{Answer, claim_next_pending-Answer}
use api.Dispatch.Once.{expire_once}

abbrev outcome : Outcome
outcome = record {
  flags = [];
  account_quota_refunded = false;
  account_quota_refunded_ids = [];
  updated_at = 0;
}

abbrev stored : Meta → StoredTask
stored m = record {
  metadata = m;
  decoded_main_url = "";
  account_id = "";
  account_quota_charge_id = "";
  outcome = outcome;
}

abbrev first_task : StoredTask
first_task = stored (new_meta "t1" "" true 100)

abbrev second_task : StoredTask
second_task = stored (new_meta "t2" "" true 110)

-- The third is tried again.
abbrev third_task : StoredTask
third_task = stored (record (new_meta "t3" "" true 120) { retry_count = 1 })

abbrev shared : Shared
shared = record { accounts = []; world = record { tokens = []; transactions = [] } }

abbrev call : Call
call = record {
  worker_id = "w";
  claimed_ids = [];
  token_active_counts = [];
  token_concurrency_limits = [];
  paused = false;
}

abbrev same : String → String
same s = s

abbrev clock : Clock
clock = record { today = 1; now = 200 }

abbrev turn : Turn
turn = record {
  call = call;
  clock = clock;
  tasks = first_task ∷ second_task ∷ third_task ∷ [];
  shared = shared;
}

unfoldable program : Unit {0}
unfolding expire_tasks expire_task_if_timeout is_task_expired candidates insert_candidate is_before
    at_limit is_absent mem_string is_retry claim_next_pending claim_first fair_order only
    mark_running_task mark_running
program = tt

-- The oldest task that was not tried yet is claimed, and after three such claims the retry.
initial_first :
    (claim_next_pending same (λ id. "f") clock call (store_of same (λ id. "f") turn 2)).0
    ≡ some first_task.metadata
unfolding program
initial_first = refl

retry_after :
    (claim_next_pending same (λ id. "f") clock call (store_of same (λ id. "f") turn 3)).0
    ≡ some third_task.metadata
unfolding program
retry_after = refl

turn-RetryWaits : RetryWaits same (λ id. "f") turn
unfolding program
turn-RetryWaits =
    (refl, (refl, (refl, (refl, tt))), inr (inr (inl (refl, (refl, refl, refl, refl)))))

claims-retry_example :
    Any (RetryIn same (λ id. "f")) (claims same (λ id. "f") (turn ∷ turn ∷ turn ∷ turn ∷ []) 0)
claims-retry_example =
    claims-retry same (λ id. "f") (turn ∷ turn ∷ turn ∷ turn ∷ []) 0
      (turn-RetryWaits, (turn-RetryWaits, (turn-RetryWaits, (turn-RetryWaits, tt)))) (omega arith)

claim_next_pending-Answer_example :
    Answer clock call
      (listed same (λ id. "f") turn)
      (claim_next_pending same (λ id. "f") clock call (store_of same (λ id. "f") turn 0))
claim_next_pending-Answer_example =
    claim_next_pending-Answer same (λ id. "f") turn 0 refl turn-RetryWaits.1

abbrev late : Clock
late = record { today = 1; now = 20000 }

too_old : (expire_task_if_timeout same (λ id. "f") late first_task shared).0 ≡ true
unfolding program
too_old = refl

expire_once_example :
    expire_task_if_timeout same
      (λ id. "g")
      late
      (expire_task_if_timeout same (λ id. "f") late first_task shared).1
      shared
    ≡ (false, (expire_task_if_timeout same (λ id. "f") late first_task shared).1, shared)
expire_once_example =
    expire_once same (λ id. "f") (λ id. "g") late late first_task shared shared too_old
