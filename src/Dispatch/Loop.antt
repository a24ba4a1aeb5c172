-- ===== src/Dispatch/Loop.antt =====
-- app/store.py, `claim_next_pending`: what the loop over the candidates finds.
use api.Base.{
  ℕ, ◌+◌, Bool, true, false, ◌&&◌, ◌||◌, not, Option, none, some, List, [], ◌∷◌, ◌++◌, String,
  str_eq, eq_iff, ltb, ◌==◌, ◌≡◌, refl, arith, if◌then◌else◌, Bool-cases, inl, inr, All, Any, ap,
  sym, ◌∙◌, subst,
}
use api.Tasks.Meta.{Meta, is_pending, is_retry, is_task_expired}
use api.Tasks.Update.{mark_running}
use api.Dispatch.Expire.{StoredTask, Shared, Clock}
use api.Dispatch.Claim.{
  Call, Store, at_limit, is_early, mark_running_task, expire_task, claim_first,
}
use api.Dispatch.Waiting.{found}
use api.Dispatch.Kept.{expire_task-found}

-- What a claim asks of a candidate.
abbrev pub Runnable : Clock → Call → List StoredTask → Meta → Type 0
Runnable clock call counted m =
    (m.cancel_requested ≡ false)
    × ((not (m.next_attempt_at == 0) && ltb clock.now m.next_attempt_at) ≡ false)
    × (is_task_expired clock.now m ≡ false)
    × (at_limit call counted m.owner_token_hash ≡ false)

mark_running-pending :
    (m : Meta) (worker : String) (now : ℕ)
    → is_pending m.status ≡ true
    → m.cancel_requested ≡ false
    → (mark_running false worker now m).1 ≡ true
unfolding mark_running
mark_running-pending m worker now p c = ground arith

mark_running-found :
    (m : Meta) (worker : String) (now : ℕ) (tasks : List StoredTask)
    → found m.id tasks ≡ some m
    → is_pending m.status ≡ true
    → m.cancel_requested ≡ false
    → (mark_running_task false m.id worker now tasks).0 ≡ true
unfolding mark_running_task found
mark_running-found m worker now [] e p c = absurd (ground (arith, e))
mark_running-found m worker now (t ∷ tasks) e p c =
    elim (Bool-cases (str_eq t.metadata.id m.id))
      as (λ _. (mark_running_task false m.id worker now (t ∷ tasks)).0 ≡ true) [
        | inl s ↦
            let same : t.metadata ≡ m = ground (arith, e, s) in
            ground (
              arith,
              s,
              ap (λ n. (mark_running false worker now n).1) same,
              mark_running-pending m worker now p c,
            )
        | inr s ↦
            ground (arith, s, mark_running-found m worker now tasks (ground (arith, e, s)) p c)
      ]

-- A task was claimed, one with the property, and the streak counts it.
abbrev pub Claimed : (Meta → Type 0) → ℕ → Option Meta × Store → Type 0
Claimed P streak (none, store) = ⊥
Claimed P streak (some m, store) = P m × (store.streak ≡ (if is_retry m then 0 else streak + 1))

if-Claimed :
    (P : Meta → Type 0) (streak : ℕ) (b : Bool) (x y : Option Meta × Store)
    → (b ≡ true → Claimed P streak x)
    → (b ≡ false → Claimed P streak y)
    → Claimed P streak (if b then x else y)
if-Claimed P streak true x y f g = f refl
if-Claimed P streak false x y f g = g refl

module _ (normalize : String → String) (fresh_id : String → String) (clock : Clock)
    (counted : List StoredTask) where
  -- A task is as it was when it was counted, or was too old then.
  abbrev pub AsCounted : List StoredTask → Type 0
  AsCounted tasks =
      (m : Meta)
      → found m.id counted ≡ some m
      → is_task_expired clock.now m ≡ false
      → found m.id tasks ≡ some m

  pub if-AsCounted :
      (b : Bool) (x y : Store)
      → (b ≡ true → AsCounted x.tasks)
      → AsCounted y.tasks
      → AsCounted (if b then x else y).tasks
  if-AsCounted true x y f g = f refl
  if-AsCounted false x y f g = g

  if-streak :
      (b : Bool) (x y : Store) → x.streak ≡ y.streak → (if b then x else y).streak ≡ y.streak
  if-streak true x y e = e
  if-streak false x y e = refl

  pub expire-AsCounted :
      (m : Meta) (tasks : List StoredTask) (shared : Shared)
      → found m.id counted ≡ some m
      → is_task_expired clock.now m ≡ true
      → AsCounted tasks
      → AsCounted (expire_task normalize fresh_id clock m.id tasks shared).0
  expire-AsCounted m tasks shared e old keep n f young =
      elim (Bool-cases (str_eq m.id n.id))
        as (λ _. found n.id (expire_task normalize fresh_id clock m.id tasks shared).0 ≡ some n) [
          | inl s ↦
              let same : m.id ≡ n.id = (eq_iff m.id n.id).0 s in
              let both : some m ≡ some n = sym e ∙ ap (λ id. found id counted) same ∙ f in
              absurd (ground (arith, both, old, young))
          | inr s ↦
              expire_task-found normalize fresh_id clock m.id n.id tasks shared s ∙ keep n f young
        ]

  -- With a candidate among the first ones that may run, one of the first is claimed.
  pub claim_first-Claimed :
      (P : Meta → Type 0) (call : Call) (ms rest : List Meta) (store : Store)
      → call.paused ≡ false
      → All (λ m. P m × (is_pending m.status ≡ true) × (found m.id counted ≡ some m)) ms
      → AsCounted store.tasks
      → Any (Runnable clock call counted) ms
      → Claimed P store.streak
          (claim_first normalize fresh_id clock call counted (ms ++ rest) store)
  unfolding claim_first
  claim_first-Claimed P call [] rest store open_ h keep r = elim r [ ]
  claim_first-Claimed P call (m ∷ ms) rest store open_ h keep r =
      let expired = expire_task normalize fresh_id clock m.id store.tasks store.shared in
      let old = record store { tasks = expired.0; shared = expired.1 } in
      let is_old = not (is_early normalize fresh_id clock m) && is_task_expired clock.now m in
      let next : Store = if is_old then old else store in
      let kept : AsCounted next.tasks =
        if-AsCounted is_old old store
          (λ b. expire-AsCounted m store.tasks store.shared h.0.2 (ground arith) keep) keep in
      let marked = mark_running_task call.paused m.id call.worker_id clock.now store.tasks in
      let ran : is_task_expired clock.now m ≡ false → m.cancel_requested ≡ false → marked.0 ≡ true =
        λ young quiet. rw open_ (
          mark_running-found m call.worker_id clock.now store.tasks (keep m h.0.2 young) h.0.1
            quiet) in
      let skipped =
        is_early normalize fresh_id clock m
        || is_old
        || at_limit call counted m.owner_token_hash
        || m.cancel_requested
        || not marked.0 in
      let claimed = record store {
        tasks = marked.1;
        streak = if is_retry m then 0 else store.streak + 1;
      } in
      if-Claimed P store.streak skipped
        (claim_first normalize fresh_id clock call counted (ms ++ rest) next) (some m, claimed)
        (λ skip.
          let later : Any (Runnable clock call counted) ms =
            elim r as (λ _. Any (Runnable clock call counted) ms) [
              | inl q ↦ absurd (ground (arith, q.0, q.1, q.2, q.3, skip, ran q.2 q.0))
              | inr q ↦ q
            ] in
          subst
            (λ s. Claimed P s (claim_first normalize fresh_id clock call counted (ms ++ rest) next))
            (if-streak is_old old store refl)
            (claim_first-Claimed P call ms rest next open_ h.1 kept later))
        (λ _. (h.0.0, refl))
