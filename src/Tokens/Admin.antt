-- ===== src/Tokens/Admin.antt =====
-- app/temp_access.py, what administrators, purchases and cards do to a token, with the public view
-- of an entry. As in Quota, the tokens come back as they stand after the call.
use api.Base.{
  true, false, ℕ, zero, suc, ◌+◌, ◌-◌, ◌*◌, Bool, Option, none, some, List, [], ◌∷◌, String, ltb,
  ◌==◌, if◌then◌else◌,
}
use api.Base.Text.{str_take}
use api.Base.Int.{ℤ, pos, negsuc, ◌+ℤ◌}
use api.Base.Dict.{lookup, insert, erase, contains}
use api.Base.Result.{Result, ok, err}
use api.Billing
use api.Billing.{Decimal, finite, points_to_units, whole_units, point_scale}
use api.Tokens.Entry.{
  Priority, Entry, AccessContext, or_default, clamp, max_temp_token_concurrency,
  max_remote_generation_limit, normalize_retention_days, normalize_remote_generation_limit,
  entry_concurrency, entry_video_quota_units, set_entry_video_quota_units, sync_legacy_fields,
  migrate_entry,
}
use api.Tokens.Quota.{Tokens}

pub data Error : Type 0 where
  token_not_found points_insufficient video_quota_insufficient bad_amount zero_change : Error
  nonpositive_units : Error
  bad_points : Billing.Error → Error

pub record PublicToken : Type 0 where
  pub id : String
  pub token : String
  pub remark : String
  pub limit : ℕ
  pub used : ℕ
  pub remaining : ℕ
  pub free_remaining : ℕ
  pub video_quota_units : ℕ
  pub credit_units : ℕ
  pub billing_priority : Priority
  pub concurrency : ℕ
  pub remote_generation_limit : ℕ
  pub task_retention_days : ℕ
  pub created_at : ℕ
  pub updated_at : ℕ

abbrev pub temp_token_limit : ℕ
temp_token_limit = 100

unfoldable pub public_token : String → Entry → PublicToken
public_token token_hash entry =
    let limit = or_default entry.limit temp_token_limit in
    let video_units = entry_video_quota_units entry in
    record {
      id = token_hash;
      token = entry.token;
      remark = str_take 100 entry.remark;
      limit = limit;
      used = entry.used;
      remaining = limit - entry.used;
      free_remaining = video_units;
      video_quota_units = video_units;
      credit_units = entry.credit_units;
      billing_priority = entry.billing_priority;
      concurrency = entry_concurrency entry;
      remote_generation_limit = normalize_remote_generation_limit entry;
      task_retention_days = normalize_retention_days entry.task_retention_days;
      created_at = entry.created_at;
      updated_at = entry.updated_at;
    }

-- `get_temp_context`, of the entry found under the hash.
unfoldable pub get_temp_context : String → Entry → AccessContext
get_temp_context token_hash entry =
    let limit = or_default entry.limit temp_token_limit in
    let video_units = entry_video_quota_units entry in
    record {
      token_hash = token_hash;
      is_admin = false;
      is_temp = true;
      limit = limit;
      used = entry.used;
      remaining = limit - entry.used;
      concurrency = entry_concurrency entry;
      remote_generation_limit = normalize_remote_generation_limit entry;
      task_retention_days = normalize_retention_days entry.task_retention_days;
      free_remaining = video_units;
      video_quota_units = video_units;
      credit_units = entry.credit_units;
      billing_priority = entry.billing_priority;
    }

-- The optional arguments of `update_temp_token`; the priority is a normalized one.
pub record Update : Type 0 where
  pub limit : Option ℕ
  pub concurrency : Option ℕ
  pub remote_generation_limit : Option ℕ
  pub task_retention_days : Option ℕ
  pub remark : Option String
  pub billing_priority : Option Priority

-- `value if argument is None else f(argument)`
abbrev given {ℓ κ} : {A : Type ℓ} {B : Type κ} → Option A → (A → B) → B → B
given none f old = old
given (some a) f old = f a

unfoldable pub update_entry : Update → ℕ → Entry → Entry
update_entry u now entry = record entry {
  limit = given u.limit (clamp 1 100000) entry.limit;
  concurrency = given u.concurrency (clamp 1 max_temp_token_concurrency) entry.concurrency;
  remote_generation_limit =
      given u.remote_generation_limit (clamp 1 max_remote_generation_limit)
        entry.remote_generation_limit;
  task_retention_days =
      given u.task_retention_days normalize_retention_days entry.task_retention_days;
  remark = given u.remark (str_take 100) entry.remark;
  billing_priority = given u.billing_priority (λ p. p) entry.billing_priority;
  updated_at = now;
}

unfoldable pub deduct_entry : ℕ → ℕ → ℕ → Entry → Result Error Entry
deduct_entry units free_limit now stored =
    let entry = (migrate_entry stored free_limit).0 in
    let lowered = record entry { credit_units = entry.credit_units - units } in
    if ltb entry.credit_units units
    then err points_insufficient
    else ok (record (sync_legacy_fields lowered) { updated_at = now })

-- `int(parsed * POINT_SCALE)`; what is no finite number of tenths is an error.
unfoldable pub change_units : Option Decimal → Option ℤ
change_units (some (finite negative c e)) = elim (whole_units c e) [
  | none ↦ none
  | some zero ↦ some (pos 0)
  | some (suc n) ↦ some (if negative then negsuc n else pos (suc n))
]
change_units _ = none

unfoldable pub adjust_entry : ℤ → ℕ → ℕ → Entry → Result Error Entry
adjust_entry change free_limit now stored =
    let entry = (migrate_entry stored free_limit).0 in
    elim (pos (entry_video_quota_units entry) +ℤ change) [
      | negsuc _ ↦ err video_quota_insufficient
      | pos units ↦ ok (record (sync_legacy_fields (set_entry_video_quota_units entry units)) {
        updated_at = now;
      })
    ]

unfoldable pub purchase_entry : ℕ → ℕ → ℕ → ℕ → ℕ → Entry → Result Error Entry
purchase_entry units bonus concurrency free_limit now stored =
    let entry = (migrate_entry stored free_limit).0 in
    let paid = record entry { credit_units = entry.credit_units - units } in
    let video_units = entry_video_quota_units paid + bonus * point_scale in
    let extended = set_entry_video_quota_units paid video_units in
    let widened = record extended {
      concurrency = clamp 1 max_temp_token_concurrency concurrency;
    } in
    if ltb entry.credit_units units
    then err points_insufficient
    else ok (record (sync_legacy_fields widened) { updated_at = now })

unfoldable pub credit_entry : ℕ → ℕ → Entry → Result Error Entry
credit_entry units now stored =
    let entry = (migrate_entry stored 0).0 in
    let raised = record entry { credit_units = entry.credit_units + units } in
    ok (record (sync_legacy_fields raised) { updated_at = now })

-- Read the file, change one entry, write the file: nothing is written where the change raises.
unfoldable pub mutate_token :
    (Entry → Result Error Entry) → String → Tokens → Result Error PublicToken × Tokens
mutate_token change token_hash tokens = elim (lookup token_hash tokens) [
  | none ↦ (err token_not_found, tokens)
  | some entry ↦ elim (change entry) [
    | err e ↦ (err e, tokens)
    | ok after ↦ (ok (public_token token_hash after), insert token_hash after tokens)
  ]
]

-- `normalize` is `str.strip().lower()`.
module _ (normalize : String → String) where
  unfoldable pub update_temp_token :
      String → Update → ℕ → Tokens → Result Error PublicToken × Tokens
  update_temp_token raw u now = mutate_token (λ e. ok (update_entry u now e)) (normalize raw)

  unfoldable pub deduct_temp_points :
      String → ℕ → Option Decimal → ℕ → Tokens → Result Error PublicToken × Tokens
  deduct_temp_points raw free_limit amount now tokens = elim (points_to_units amount) [
    | err e ↦ (err (bad_points e), tokens)
    | ok units ↦ mutate_token (deduct_entry units free_limit now) (normalize raw) tokens
  ]

  unfoldable pub adjust_temp_video_quota :
      String → ℕ → Option Decimal → ℕ → Tokens → Result Error PublicToken × Tokens
  adjust_temp_video_quota raw free_limit amount now tokens = elim (change_units amount) [
    | none ↦ (err bad_amount, tokens)
    | some (pos zero) ↦ (err zero_change, tokens)
    | some change ↦ mutate_token (adjust_entry change free_limit now) (normalize raw) tokens
  ]

  unfoldable pub purchase_temp_membership :
      String → ℕ → Option Decimal → ℕ → ℕ → ℕ → Tokens → Result Error PublicToken × Tokens
  purchase_temp_membership raw free_limit cost bonus concurrency now tokens =
      elim (points_to_units cost) [
        | err e ↦ (err (bad_points e), tokens)
        | ok units ↦
            mutate_token (purchase_entry units bonus concurrency free_limit now) (normalize raw)
              tokens
      ]

  unfoldable pub add_temp_credit_units : String → ℕ → ℕ → Tokens → Result Error PublicToken × Tokens
  add_temp_credit_units raw units now tokens =
      if units == 0
      then (err nonpositive_units, tokens)
      else mutate_token (credit_entry units now) (normalize raw) tokens

  unfoldable pub delete_temp_token : String → Tokens → Bool × Tokens
  delete_temp_token raw tokens = (contains (normalize raw) tokens, erase (normalize raw) tokens)

  -- The tokens drawn at random, one for each round of the `while` loop, until one is free; `none`
  -- when no draw is.
  unfoldable pub first_free : (String → String) → Tokens → List String → Option String
  first_free hash_token tokens [] = none
  first_free hash_token tokens (token ∷ draws) =
      if contains (hash_token token) tokens then first_free hash_token tokens draws else some token

  -- The outer `none` is a loop that goes on.
  unfoldable pub rotate_temp_token :
      (String → String)
      → List String
      → String
      → ℕ
      → Tokens
      → Option (Result Error PublicToken × Tokens)
  rotate_temp_token hash_token draws raw now tokens =
      elim (lookup (normalize raw) tokens) as (λ _. Option (Result Error PublicToken × Tokens)) [
        | none ↦ some (err token_not_found, tokens)
        | some entry ↦ elim (first_free hash_token tokens draws) [
          | none ↦ none
          | some token ↦
              let replacement : Entry = record entry { token = token; updated_at = now } in
              let new_hash = hash_token token in
              some (
                ok (public_token new_hash replacement),
                erase (normalize raw) (insert new_hash replacement tokens),
              )
        ]
      ]
