-- ===== src/Batch/Delta.antt =====
-- app/batch_jobs.py: what a reader of an earlier revision knows of the rows.
use api.Base.{
  ℕ, ◌+◌, ◌<◌, ◌≤◌, Bool, true, false, ◌||◌, not, some, List, [], ◌∷◌, String, ◌≡◌, refl, sym,
  subst, arith, if◌then◌else◌, Option-cases, Bool-cases, inl, inr, ◌⊎◌, eq_iff,
}
use api.Batch.Job.{Job, Row, finish_job_if_terminal}
use api.Batch.Rows.{
  cancel_job, recover_stale_creating_rows, claim_row, mark_row_assets_ready, find_row, is_ready,
  is_lacking, has_index, finish_row_creation, fail_or_requeue_row, reconcile_job,
}
use api.Batch.Event.{
  Event, cancel, recover, claim, assets_ready, created, creation_failed, reconcile, mutate,
}
use api.Batch.Revision.{
  same_list, same_row, same_job, row_before, is_changed, any_changed, stamp, apply, public_row,
}

same_list-equal : (xs ys : List String) → same_list xs ys ≡ true → xs ≡ ys
unfolding same_list
same_list-equal [] [] h = refl
same_list-equal [] (y ∷ ys) h = ground arith
same_list-equal (x ∷ xs) [] h = ground arith
same_list-equal (x ∷ xs) (y ∷ ys) h = ground (arith, eq_iff x y, same_list-equal xs ys)

same_row-public : (a b : Row) → same_row a b ≡ true → public_row a ≡ public_row b
unfolding same_row public_row
same_row-public a b h = ground (
  arith,
  eq_iff a.prompt b.prompt,
  eq_iff a.task_id b.task_id,
  eq_iff a.error b.error,
  eq_iff a.video_url b.video_url,
  same_list-equal a.image_files b.image_files,
)

-- The row is shown to a reader of revision `since`, or stands as in `before`.
abbrev pub Known : ℕ → List Row → Row → Type 0
Known since before row =
    (since < row.revision)
    ⊎ (previous : Row) × (row_before row.index before ≡ some previous)
      × (public_row row ≡ public_row previous)

abbrev pub AllKnown : ℕ → List Row → List Row → Type 0
AllKnown since before [] = Unit
AllKnown since before (row ∷ rows) = Known since before row × AllKnown since before rows

unchanged-Known :
    (since : ℕ) (before : List Row) (row : Row)
    → is_changed before row ≡ false
    → Known since before row
unfolding is_changed
unchanged-Known since before row h =
    elim (Option-cases (row_before row.index before)) as (λ _. Known since before row) [
      | inl missing ↦ ground arith
      | inr (previous, there) ↦ inr (previous, there, same_row-public row previous (ground arith))
    ]

if-AllKnown :
    (since : ℕ) (before : List Row) (b : Bool) (xs ys : List Row)
    → (b ≡ true → AllKnown since before xs)
    → (b ≡ false → AllKnown since before ys)
    → AllKnown since before (if b then xs else ys)
if-AllKnown since before true xs ys t f = t refl
if-AllKnown since before false xs ys t f = f refl

stamp-AllKnown :
    (since now : ℕ) (before rows : List Row)
    → AllKnown since before (stamp before (since + 1) now rows)
unfolding stamp
stamp-AllKnown since now before [] = tt
stamp-AllKnown since now before (row ∷ rows) =
    let rest = stamp before (since + 1) now rows in
    let known = stamp-AllKnown since now before rows in
    if-AllKnown since before (is_changed before row)
      (record row { revision = since + 1; updated_at = now } ∷ rest) (row ∷ rest)
      (λ _. (inl (omega arith), known)) (λ same. (unchanged-Known since before row same, known))

unchanged-AllKnown :
    (since : ℕ) (before rows : List Row)
    → any_changed before rows ≡ false
    → AllKnown since before rows
unfolding any_changed
unchanged-AllKnown since before [] h = tt
unchanged-AllKnown since before (row ∷ rows) h = (
  unchanged-Known since before row (ground arith),
  unchanged-AllKnown since before rows (ground arith),
)

apply-AllKnown :
    (now : ℕ) (before job : Job) → AllKnown before.revision before.rows (apply now before job).rows
unfolding apply
apply-AllKnown now before job =
    let since = before.revision in
    let stamped = stamp before.rows (since + 1) now job.rows in
    let change = any_changed before.rows job.rows || not (same_job job before) in
    let result = apply now before job in
    elim (Bool-cases change) as (λ _. AllKnown since before.rows result.rows) [
      | inl changed ↦
          let rows : result.rows ≡ stamped = ground arith in
          subst (AllKnown since before.rows) (sym rows)
            (stamp-AllKnown since now before.rows job.rows)
      | inr unchanged ↦
          let rows : result.rows ≡ job.rows = ground arith in
          let none_changed : any_changed before.rows job.rows ≡ false = ground arith in
          subst (AllKnown since before.rows) (sym rows)
            (unchanged-AllKnown since before.rows job.rows none_changed)
    ]

finish-revision : (now : ℕ) (job : Job) → (finish_job_if_terminal now job).revision ≡ job.revision
unfolding finish_job_if_terminal
finish-revision now job = ground arith

claim-revision : (now : ℕ) (job : Job) → (claim_row now job).1.revision ≡ job.revision
unfolding claim_row
claim-revision now job = elim (Option-cases (find_row (is_ready now) job.rows)) [
  | inr (row, e) ↦ ground arith
  | inl e ↦ elim (Option-cases (find_row (is_lacking now) job.rows)) [
    | inl f ↦ ground arith
    | inr (row, f) ↦ ground arith
  ]
]

mutate-revision :
    (event : Event) (now : ℕ) (job : Job) → (mutate event now job).revision ≡ job.revision
unfolding mutate cancel_job recover_stale_creating_rows mark_row_assets_ready finish_row_creation
    fail_or_requeue_row reconcile_job
mutate-revision (cancel owner reason) now job = ground arith
mutate-revision (recover age) now job = refl
mutate-revision claim now job = claim-revision now job
mutate-revision (assets_ready owner i files names) now job =
    elim (Option-cases (find_row (has_index i) job.rows)) [
      | inl e ↦ ground arith
      | inr (row, e) ↦ ground arith
    ]
mutate-revision (created i task) now job = elim (Option-cases (find_row (has_index i) job.rows)) [
  | inl e ↦ ground arith
  | inr (row, e) ↦ ground arith
]
mutate-revision (creation_failed i error retry) now job =
    elim (Option-cases (find_row (has_index i) job.rows)) [
      | inl e ↦ ground arith
      | inr (row, e) ↦ grind (arith, finish-revision)
    ]
mutate-revision (reconcile tasks) now job = grind (arith, finish-revision)

apply-revision :
    (now : ℕ) (before job : Job)
    → job.revision ≡ before.revision
    → before.revision ≤ (apply now before job).revision
unfolding apply
apply-revision now before job kept = ground arith

-- After any call that changes a job, a reader of its revision before the call is told all of the
-- change: every row now in the job is of a later revision, so among the rows shown, or reads as the
-- row with its index did before; and the revision never falls.
pub mutate-AllKnown :
    (event : Event) (now : ℕ) (job : Job)
    → let after = apply now job (mutate event now job) in
      (job.revision ≤ after.revision) × AllKnown job.revision job.rows after.rows
mutate-AllKnown event now job = (
  apply-revision now job (mutate event now job) (mutate-revision event now job),
  apply-AllKnown now job (mutate event now job),
)
