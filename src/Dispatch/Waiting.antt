-- ===== src/Dispatch/Waiting.antt =====
-- app/store.py, `claim_next_pending`: the candidates among the tasks, and finding a task by its
-- identifier.
use api.Base.{
  ℕ, Bool, true, false, ◌&&◌, not, Option, none, some, List, [], ◌∷◌, ◌++◌, String, str_eq, eq_iff,
  leb, ◌≡◌, refl, arith, if◌then◌else◌, inl, inr, All, Any, if-All, All-append, Any-left, Any-right,
}
use api.Tasks.Meta.{Meta, is_pending, is_retry}
use api.Tasks.Update.{mem_string}
use api.Dispatch.Expire.{StoredTask}
use api.Dispatch.Claim.{
  Call, is_before, insert_candidate, candidates, only, fair_order, is_empty, initial_claim_burst,
}

-- The metadata of the first task with the identifier.
unfoldable pub found : String → List StoredTask → Option Meta
found id [] = none
found id (t ∷ tasks) =
    let later = found id tasks in if str_eq t.metadata.id id then some t.metadata else later

unfoldable pub is_absent : String → List StoredTask → Bool
is_absent id [] = true
is_absent id (t ∷ tasks) = not (str_eq t.metadata.id id) && is_absent id tasks

-- No two tasks have the same identifier, which names their directory.
abbrev pub Unique : List StoredTask → Type 0
Unique [] = Unit
Unique (t ∷ tasks) = (is_absent t.metadata.id tasks ≡ true) × Unique tasks

abbrev pub Keyed : List StoredTask → Meta → Type 0
Keyed tasks m = found m.id tasks ≡ some m

abbrev AllTasks : (Meta → Type 0) → List StoredTask → Type 0
AllTasks P tasks = All (λ t. P t.metadata) tasks

cons-Keyed :
    (t : StoredTask) (tasks rest : List StoredTask)
    → is_absent t.metadata.id rest ≡ true
    → AllTasks (Keyed tasks) rest
    → AllTasks (Keyed (t ∷ tasks)) rest
unfolding found is_absent
cons-Keyed t tasks [] a h = tt
cons-Keyed t tasks (u ∷ rest) a h = (
  ground (arith, h.0, eq_iff t.metadata.id u.metadata.id, eq_iff u.metadata.id t.metadata.id),
  cons-Keyed t tasks rest (ground arith) h.1,
)

pub Unique-Keyed : (tasks : List StoredTask) → Unique tasks → AllTasks (Keyed tasks) tasks
unfolding found
Unique-Keyed [] u = tt
Unique-Keyed (t ∷ tasks) u = (
  ground (arith, eq_iff t.metadata.id t.metadata.id),
  cons-Keyed t tasks tasks u.0 (Unique-Keyed tasks u.1),
)

-- What holds of the metadata of all tasks holds of all candidates, in any order.
module _ (P : Meta → Type 0) where
  insert-All : (m : Meta) (ms : List Meta) → P m → All P ms → All P (insert_candidate m ms)
  unfolding insert_candidate
  insert-All m [] p h = (p, tt)
  insert-All m (n ∷ ms) p h =
      if-All P (is_before n m) (n ∷ insert_candidate m ms) (m ∷ n ∷ ms)
        (λ _. (h.0, insert-All m ms p h.1)) (λ _. (p, h))

  pub only-All : (b : Bool) (ms : List Meta) → All P ms → All P (only b ms)
  unfolding only
  only-All b [] h = tt
  only-All true (m ∷ ms) h =
      if-All P (is_retry m) (m ∷ only true ms) (only true ms) (λ _. (h.0, only-All true ms h.1))
        (λ _. only-All true ms h.1)
  only-All false (m ∷ ms) h =
      if-All P (is_retry m) (only false ms) (m ∷ only false ms) (λ _. only-All false ms h.1)
        (λ _. (h.0, only-All false ms h.1))

  pub fair_order-All : (streak : ℕ) (ms : List Meta) → All P ms → All P (fair_order streak ms)
  unfolding fair_order
  fair_order-All streak ms h =
      if-All P _ (only true ms ++ only false ms) (only false ms ++ only true ms)
        (λ _.
          All-append P (only true ms) (only false ms) (only-All true ms h) (only-All false ms h))
        (λ _.
          All-append P (only false ms) (only true ms) (only-All false ms h) (only-All true ms h))

-- A candidate is pending and is not one that the call leaves out.
abbrev pub Open : Call → Meta → Type 0
Open call m = (is_pending m.status ≡ true) × (mem_string m.id call.claimed_ids ≡ false)

pub candidates-Open :
    (P : Meta → Type 0) (call : Call) (tasks : List StoredTask)
    → AllTasks P tasks
    → All (λ m. P m × Open call m) (candidates call tasks)
unfolding candidates
candidates-Open P call [] h = tt
candidates-Open P call (t ∷ tasks) h =
    if-All (λ m. P m × Open call m)
      (not (mem_string t.metadata.id call.claimed_ids) && is_pending t.metadata.status)
      (insert_candidate t.metadata (candidates call tasks)) (candidates call tasks)
      (λ e.
        insert-All (λ m. P m × Open call m) t.metadata (candidates call tasks)
          (h.0, (ground arith, ground arith)) (candidates-Open P call tasks h.1))
      (λ _. candidates-Open P call tasks h.1)

pub only-retries : (ms : List Meta) → All (λ m. is_retry m ≡ true) (only true ms)
unfolding only
only-retries [] = tt
only-retries (m ∷ ms) =
    if-All (λ m. is_retry m ≡ true) (is_retry m) (m ∷ only true ms) (only true ms)
      (λ e. (e, only-retries ms)) (λ _. only-retries ms)

module _ (R : Meta → Type 0) where
  if-Any :
      (b : Bool) (xs ys : List Meta)
      → (b ≡ true → Any R xs)
      → (b ≡ false → Any R ys)
      → Any R (if b then xs else ys)
  if-Any true xs ys f g = f refl
  if-Any false xs ys f g = g refl

  pub only-Any : (ms : List Meta) → Any (λ m. (is_retry m ≡ true) × R m) ms → Any R (only true ms)
  unfolding only
  only-Any [] h = elim h [ ]
  only-Any (m ∷ ms) (inl h) =
      if-Any (is_retry m) (m ∷ only true ms) (only true ms) (λ _. inl h.1)
        (λ e. absurd (ground (arith, h.0)))
  only-Any (m ∷ ms) (inr h) =
      if-Any (is_retry m) (m ∷ only true ms) (only true ms) (λ _. inr (only-Any ms h))
        (λ _. only-Any ms h)

  pub fair_order-Any :
      (streak : ℕ) (ms : List Meta) → Any R (only true ms) → Any R (fair_order streak ms)
  unfolding fair_order
  fair_order-Any streak ms h =
      if-Any _ (only true ms ++ only false ms) (only false ms ++ only true ms)
        (λ _. Any-left R (only true ms) (only false ms) h)
        (λ _. Any-right R (only false ms) (only true ms) h)

  Any-nonempty : (ms : List Meta) → Any R ms → is_empty ms ≡ false
  Any-nonempty [] h = elim h [ ]
  Any-nonempty (m ∷ ms) h = refl

  pub fair_order-retries :
      (streak : ℕ) (ms : List Meta)
      → leb initial_claim_burst streak ≡ true
      → Any R (only true ms)
      → fair_order streak ms ≡ only true ms ++ only false ms
  unfolding fair_order
  fair_order-retries streak ms e h = rw (e, Any-nonempty (only true ms) h) refl
