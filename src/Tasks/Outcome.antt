-- ===== src/Tasks/Outcome.antt =====
-- app/store.py, the marks that the result of a task carries: keys that are set once, and the
-- accounts whose quota was given back.
use api.Base.{
  ℕ, ◌+◌, ◌≤◌, Bool, true, false, none, some, ◌&&◌, ◌||◌, not, List, [], ◌∷◌, ◌++◌, String, str_eq,
  eq_iff, ◌≡◌, refl, arith, if◌then◌else◌,
}
use api.Base.Dict.{Dict, lookup, insert}
use api.Tasks.Update.{mem_string}

-- `flags` are the keys of the result that are set, `exists` is `task_exists`.
pub record Outcome : Type 0 where
  pub flags : Dict Bool
  pub account_quota_refunded : Bool
  pub account_quota_refunded_ids : List String
  pub updated_at : ℕ

-- `data.get(key)`, of a value that is set or not.
unfoldable pub is_set : String → Dict Bool → Bool
is_set key flags = elim (lookup key flags) [ none ↦ false | some b ↦ b ]

-- `mark_result_once` with its default value.
unfoldable pub mark_result_once : Bool → String → ℕ → Outcome → Bool × Outcome
unfolding is_set
mark_result_once exists key now result =
    if not exists || is_set key result.flags
    then (false, result)
    else (true, record result { flags = insert key true result.flags; updated_at = now })

unfoldable pub mark_account_refund_once : Bool → String → ℕ → Outcome → Bool × Outcome
unfolding mem_string
mark_account_refund_once exists account_id now result =
    let ids = result.account_quota_refunded_ids in
    if str_eq account_id "" || not exists || mem_string account_id ids then (false, result) else (
      true,
      record result {
        account_quota_refunded_ids = ids ++ account_id ∷ [];
        account_quota_refunded = true;
        updated_at = now;
      },
    )

-- How often an account stands in the list.
unfoldable pub occurrences : String → List String → ℕ
occurrences s [] = 0
occurrences s (t ∷ rest) = let more = occurrences s rest in if str_eq t s then more + 1 else more

mem-occurrences : (s : String) (ts : List String) → mem_string s ts ≡ false → occurrences s ts ≡ 0
unfolding mem_string occurrences
mem-occurrences s [] h = refl
mem-occurrences s (t ∷ ts) h = ground (arith, mem-occurrences s ts)

occurrences-append :
    (s t : String) (ts : List String)
    → occurrences s (ts ++ t ∷ []) ≡ (if str_eq t s then occurrences s ts + 1 else occurrences s ts)
unfolding occurrences
occurrences-append s t [] = refl
occurrences-append s t (r ∷ ts) = ground (arith, occurrences-append s t ts)

mem-append : (s : String) (ts : List String) → mem_string s (ts ++ s ∷ []) ≡ true
unfolding mem_string
mem-append s [] = ground (arith, eq_iff s s)
mem-append s (t ∷ ts) = ground (arith, mem-append s ts)

-- The accounts of a sequence of calls, each with its time, and how many calls of one account were
-- answered by True.
unfoldable pub marks : Bool → String → List (String × ℕ) → Outcome → ℕ × Outcome
unfolding mark_account_refund_once
marks exists counted [] result = (0, result)
marks exists counted ((account, now) ∷ calls) result =
    let first = mark_account_refund_once exists account now result in
    let rest = marks exists counted calls first.1 in
    (if first.0 && str_eq account counted then rest.0 + 1 else rest.0, rest.1)

granted-once :
    (exists : Bool) (counted account : String) (now : ℕ) (result : Outcome)
    → occurrences counted result.account_quota_refunded_ids ≤ 1
    → let first = mark_account_refund_once exists account now result in
      let before = occurrences counted result.account_quota_refunded_ids in
      let after = occurrences counted first.1.account_quota_refunded_ids in
      (after ≡ (if first.0 && str_eq account counted then before + 1 else before)) × (after ≤ 1)
unfolding mark_account_refund_once
granted-once exists counted account now result h =
    let ids = result.account_quota_refunded_ids in
    ground (
      arith,
      occurrences-append counted account ids,
      mem-occurrences account ids,
      eq_iff account counted,
    )

-- About the marks of `mark_account_refund_once` alone, not about the quota, which the callers give
-- back before they mark. Over any sequence of calls, by any accounts and at any times, one account is
-- marked, and told so, at most once, and never if it stands in the list already. The list names that
-- account at most once before, and so it does after.
pub marks-granted :
    (exists : Bool) (account : String) (calls : List (String × ℕ)) (result : Outcome)
    → occurrences account result.account_quota_refunded_ids ≤ 1
    → let after = marks exists account calls result in
      (after.0 + occurrences account result.account_quota_refunded_ids
        ≡ occurrences account after.1.account_quota_refunded_ids)
      × (occurrences account after.1.account_quota_refunded_ids ≤ 1)
unfolding marks
marks-granted exists account [] result h = (omega arith, h)
marks-granted exists account ((other, now) ∷ calls) result h =
    let first = mark_account_refund_once exists other now result in
    let granted = granted-once exists account other now result h in
    let rest = marks-granted exists account calls first.1 granted.1 in ground (arith, granted, rest)
