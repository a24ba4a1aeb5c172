-- ===== src/Tokens/Conservation.antt =====
-- app/temp_access.py: the balances and open reservations of a token over a sequence of calls.
use api.Base.{
  subst, ◌⊎◌, str_eq, ℕ, ◌+◌, ◌≡◌, ◌≢◌, ◌∙◌, ap, refl, arith, true, String, List, [], ◌∷◌, none,
  some, ◌==◌, Option-cases, inl, inr, eq_iff, ◌/◌, Bool-cases,
}
use api.Base.Dict.{lookup, insert, lookup-insert}
use api.Base.Result.{Result, ok, err, Result-cases}
use api.Billing.{points_to_units}
use api.Tokens.Entry.{Entry, AccessContext}
use api.Tokens.Quota.{
  Tokens, World, reserve_temp_quota, reserve_entry, find_reservation, refund_entry, Refund,
  refund_temp_quota_hash,
}
use api.Tokens.Admin.{
  Error, public_token, mutate_token, update_temp_token, deduct_temp_points,
  purchase_temp_membership, add_temp_credit_units, update_entry, deduct_entry, purchase_entry,
  credit_entry,
}
use api.Tokens.Held.{held, reserve_entry-held, refund_entry-held}
use api.Tokens.Refunds.{migrate_entry-current, reserve_entry-version}
use api.Tokens.Once.{refund_entry-version}
use api.Tokens.AdminLaws.{
  deduct_entry-held, credit_entry-held, purchase_entry-held, update_entry-held,
}
use api.Tokens.History.{
  Call, reserve, refund, add_credit, deduct, purchase, update, Flow, no_flow, flow_if, call, calls,
  IsNamed, AllNamed, Holds,
}

-- A reservation leaves the tokens alone, or charges a task that had none.
reserve_temp_quota_cases :
    (access : AccessContext) (t u : String) (c vc now : ℕ) (tokens : Tokens) (e : Entry)
    → access.is_temp ≡ true
    → t ≢ ""
    → lookup access.token_hash tokens ≡ some e
    → e.billing_version ≡ 3
    → let after = (reserve_temp_quota access t c u vc now tokens).1 in
      (after ≡ tokens)
      ⊎ ((paid : Entry) × (lookup t e.reservations ≡ none)
          × (reserve_entry t c u vc now e ≡ ok paid)
          × (after ≡ insert access.token_hash paid tokens))
unfolding reserve_temp_quota find_reservation
reserve_temp_quota_cases access t u c vc now tokens e temp named found version =
    let current = migrate_entry-current e (access.free_remaining / 10) version in
    elim (Option-cases (lookup t e.reservations)) [
      | inr (r, seen) ↦ inl (ground (arith, current, eq_iff t ""))
      | inl new ↦ elim (Result-cases (reserve_entry t c u vc now e)) [
        | inl (x, refused) ↦ inl (ground (arith, current, eq_iff t ""))
        | inr (paid, charged) ↦ inr (paid, new, charged, ground (arith, current, eq_iff t ""))
      ]
    ]

refund_temp_quota_hash_cases :
    (normalize : String → String) (a t fresh : String) (now : ℕ) (w : World) (e : Entry)
    → normalize a ≡ a
    → lookup a w.tokens ≡ some e
    → let after = (refund_temp_quota_hash normalize a t fresh now w).1 in
      (after ≡ w)
      ⊎ ((e' : Entry) × (f : Refund) × (refund_entry t now e ≡ some (e', f))
          × (after.tokens ≡ insert a e' w.tokens))
unfolding refund_temp_quota_hash
refund_temp_quota_hash_cases normalize a t fresh now w e same found =
    elim (Bool-cases (str_eq a "")) [
      | inl empty ↦ inl (ground arith)
      | inr named ↦ elim (Option-cases (refund_entry t now e)) [
        | inl refused ↦ inl (ground arith)
        | inr ((e', f), done) ↦ inr (e', f, done, ground arith)
      ]
    ]

-- What a change of the entry has to do with the flow that is reported for it.
abbrev Good : Entry → Entry → Flow → Type 0
Good e e' flow =
    (e'.billing_version ≡ 3)
    × ((held e').0 ≡ (held e).0 + flow.video_in)
    × ((held e').1 + flow.credit_out ≡ (held e).1 + flow.credit_in)

mutate_token-ok :
    (change : Entry → Result Error Entry) (h : String) (tokens : Tokens) (e e' : Entry)
    → lookup h tokens ≡ some e
    → change e ≡ ok e'
    → mutate_token change h tokens ≡ (ok (public_token h e'), insert h e' tokens)
unfolding mutate_token
mutate_token-ok change h tokens e e' found done = ground arith

mutate_token-err :
    (change : Entry → Result Error Entry) (h : String) (tokens : Tokens) (e : Entry) (x : Error)
    → lookup h tokens ≡ some e
    → change e ≡ err x
    → mutate_token change h tokens ≡ (err x, tokens)
unfolding mutate_token
mutate_token-err change h tokens e x found done = ground arith

module _ (normalize : String → String) (access : AccessContext) where
  abbrev Moves : ℕ → ℕ → World × Flow → Type 0
  Moves v k (w, flow) =
      (v' : ℕ) × (k' : ℕ) × Holds normalize access w v' k'
      × (v' ≡ v + flow.video_in)
      × (k' + flow.credit_out ≡ k + flow.credit_in)

  Moves-same : (w : World) (v k : ℕ) → Holds normalize access w v k → Moves v k (w, no_flow)
  Moves-same w v k h = (v, k, h, omega arith, omega arith)

  Moves-written :
      (w : World) (v k : ℕ) (h : Holds normalize access w v k) (e' : Entry) (flow : Flow)
      (w' : World)
      → Good h.entry e' flow
      → w'.tokens ≡ insert access.token_hash e' w.tokens
      → Moves v k (w', flow)
  Moves-written w v k h e' flow w' good written =
      let a = access.token_hash in
      (
        (held e').0,
        (held e').1,
        record {
          entry = e';
          stored =
              ap (lookup a) written ∙ ground (arith, lookup-insert a a e' w.tokens, eq_iff a a);
          current = good.0;
          video_held = refl;
          credit_held = refl;
        },
        omega (arith, good.1, h.video_held),
        omega (arith, good.2, h.credit_held),
      )

  mutate_token-Moves :
      (change : Entry → Result Error Entry) (flow : Flow) (w : World) (v k : ℕ)
      → Holds normalize access w v k
      → ((e e' : Entry) → e.billing_version ≡ 3 → change e ≡ ok e' → Good e e' flow)
      → let (r, tokens) = mutate_token change access.token_hash w.tokens in
        Moves v k (record w { tokens = tokens }, flow_if r flow)
  mutate_token-Moves change flow w v k h good = elim (Result-cases (change h.entry)) [
    | inl (x, refused) ↦
        rw (mutate_token-err change access.token_hash w.tokens h.entry x h.stored refused)
          (Moves-same w v k h)
    | inr (e', done) ↦
        rw (mutate_token-ok change access.token_hash w.tokens h.entry e' h.stored done)
          (Moves-written w v k h e' flow _ (good h.entry e' h.current done) refl)
  ]

  reserve_temp_quota-Moves :
      (t u : String) (c vc now : ℕ) (w : World) (v k : ℕ)
      → access.is_temp ≡ true
      → t ≢ ""
      → Holds normalize access w v k
      → Moves v k
          (record w { tokens = (reserve_temp_quota access t c u vc now w.tokens).1 }, no_flow)
  reserve_temp_quota-Moves t u c vc now w v k temp named h =
      elim (reserve_temp_quota_cases access t u c vc now w.tokens h.entry temp named h.stored
        h.current) [
          | inl same ↦ rw same (Moves-same w v k h)
          | inr (paid, new, charged, written) ↦
              let kept = reserve_entry-held t c u vc now h.entry paid named new charged in
              let version = reserve_entry-version t c u vc now h.entry paid charged in
              Moves-written w v k h paid no_flow _
                (version ∙ h.current, ground (arith, kept), ground (arith, kept)) written
        ]

  refund_temp_quota_hash-Moves :
      (t fresh : String) (now : ℕ) (w : World) (v k : ℕ)
      → normalize access.token_hash ≡ access.token_hash
      → t ≢ ""
      → Holds normalize access w v k
      → Moves v k ((refund_temp_quota_hash normalize access.token_hash t fresh now w).1, no_flow)
  refund_temp_quota_hash-Moves t fresh now w v k same named h =
      elim (refund_temp_quota_hash_cases normalize access.token_hash t fresh now w h.entry same
        h.stored) [
          | inl kept ↦ rw kept (Moves-same w v k h)
          | inr (e', f, done, written) ↦
              let kept =
                refund_entry-held t now h.entry e' f named (omega (arith, h.current)) done in
              let version = refund_entry-version t now h.entry e' f named done in
              Moves-written w v k h e' no_flow _
                (version ∙ h.current, ground (arith, kept), ground (arith, kept)) written
        ]

  call-Moves :
      (c : Call) (w : World) (v k : ℕ)
      → normalize access.token_hash ≡ access.token_hash
      → access.is_temp ≡ true
      → IsNamed normalize access c
      → Holds normalize access w v k
      → Moves v k (call normalize access c w)
  unfolding call add_temp_credit_units deduct_temp_points purchase_temp_membership update_temp_token
  call-Moves (reserve t u c vc now) w v k same temp named h =
      reserve_temp_quota-Moves t u c vc now w v k temp named h
  call-Moves (refund t fresh now) w v k same temp named h =
      refund_temp_quota_hash-Moves t fresh now w v k same named h
  call-Moves (add_credit units now) w v k same temp named h = elim (Bool-cases (units == 0)) [
    | inl zero_units ↦ rw (add_temp_credit_units, zero_units) (Moves-same w v k h)
    | inr some_units ↦
        rw (add_temp_credit_units, some_units, same)
          (mutate_token-Moves (credit_entry units now) _ w v k h
            (λ e e' version done. ground (arith, credit_entry-held units now e e' version done)))
  ]
  call-Moves (deduct free_limit amount now) w v k same temp named h =
      elim (Result-cases (points_to_units amount)) [
        | inl (x, bad) ↦ rw (deduct_temp_points, bad) (Moves-same w v k h)
        | inr (units, good) ↦
            rw (deduct_temp_points, good, same)
              (mutate_token-Moves (deduct_entry units free_limit now) _ w v k h
                (λ e e' version done.
                  ground (arith, deduct_entry-held units free_limit now e e' version done)))
      ]
  call-Moves (purchase free_limit cost bonus concurrency now) w v k same temp named h =
      elim (Result-cases (points_to_units cost)) [
        | inl (x, bad) ↦ rw (purchase_temp_membership, bad) (Moves-same w v k h)
        | inr (units, good) ↦
            rw (purchase_temp_membership, good, same)
              (mutate_token-Moves (purchase_entry units bonus concurrency free_limit now) _ w v k h
                (λ e e' version done. ground (
                  arith,
                  purchase_entry-held units bonus concurrency free_limit now e e' version done,
                )))
      ]
  call-Moves (update u now) w v k same temp named h =
      rw (update_temp_token, same)
        (mutate_token-Moves (λ e. ok (update_entry u now e)) no_flow w v k h
          (λ e e' version done. ground (arith, update_entry-held u now e)))

  calls-Moves :
      (cs : List Call) (w : World) (v k : ℕ)
      → normalize access.token_hash ≡ access.token_hash
      → access.is_temp ≡ true
      → AllNamed normalize access cs
      → Holds normalize access w v k
      → Moves v k (calls normalize access cs w)
  unfolding calls
  calls-Moves [] w v k same temp named h = Moves-same w v k h
  calls-Moves (c ∷ cs) w v k same temp named h =
      let (v', k', h', video, credit) = call-Moves c w v k same temp named.0 h in
      let (v'', k'', h'', videos, credits) =
        calls-Moves cs (call normalize access c w).0 v' k' same temp named.1 h' in
      (v'', k'', h'', omega arith, omega arith)

-- Over any sequence of calls that name their tasks, the points of the token with its open
-- reservations change by exactly what was credited less what was deducted or spent on packages,
-- and its video quota with its open reservations by exactly what packages added.
pub calls-conserve :
    (normalize : String → String) (access : AccessContext) (cs : List Call) (w : World) (v k : ℕ)
    → normalize access.token_hash ≡ access.token_hash
    → access.is_temp ≡ true
    → AllNamed normalize access cs
    → Holds normalize access w v k
    → let (w', flow) = calls normalize access cs w in
      (k' : ℕ) × Holds normalize access w' (v + flow.video_in) k'
      × (k' + flow.credit_out ≡ k + flow.credit_in)
calls-conserve normalize access cs w v k same temp named h =
    let (v', k', h', video, credit) = calls-Moves normalize access cs w v k same temp named h in
    (k', subst (λ x. Holds normalize access (calls normalize access cs w).0 x k') video h', credit)
