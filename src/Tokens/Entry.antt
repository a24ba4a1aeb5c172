-- ===== src/Tokens/Entry.antt =====
-- app/temp_access.py, the entry of one token: the stored fields with the defaults that the reads
-- put in, the migration to billing version 3, and the pruning of closed reservations.
-- Every stored number is one that the program wrote, so none is negative; 0 is also an absent
-- field where the source reads `x or default`. Times are instants, 0 for the empty text. Points
-- (`free_remaining`) are in tenths, as app/billing.py converts them without loss.
use api.Base.{
  ℕ, ◌+◌, ◌-◌, ◌*◌, ◌/◌, min, max, Bool, true, false, Option, none, some, List, [], ◌∷◌, ◌++◌,
  String, ltb, leb, ◌==◌, if◌then◌else◌, length, take,
}
use api.Base.Dict.{Dict}
use api.Billing.{point_scale}

pub data Priority : Type 0 where
  video_first points_first : Priority

pub data ReservationStatus : Type 0 where
  reserved refunded : ReservationStatus

pub record Reservation : Type 0 where
  pub status : ReservationStatus
  pub free : Bool
  pub units : ℕ
  pub video_units : ℕ
  pub user_id : String
  pub created_at : ℕ
  pub refunded_at : ℕ

pub record Entry : Type 0 where
  pub token : String
  pub limit : ℕ
  pub used : ℕ
  pub concurrency : ℕ
  pub remote_generation_limit : ℕ
  pub task_retention_days : ℕ
  pub remark : String
  pub free_remaining : ℕ
  pub video_quota_units : Option ℕ
  pub credit_units : ℕ
  pub billing_priority : Priority
  pub billing_version : ℕ
  pub reservations : Dict Reservation
  pub quota_refund_ids : List String
  pub created_at : ℕ
  pub updated_at : ℕ

pub record AccessContext : Type 0 where
  pub token_hash : String
  pub is_admin : Bool
  pub is_temp : Bool
  pub limit : ℕ
  pub used : ℕ
  pub remaining : ℕ
  pub concurrency : ℕ
  pub remote_generation_limit : ℕ
  pub task_retention_days : ℕ
  pub free_remaining : ℕ
  pub video_quota_units : ℕ
  pub credit_units : ℕ
  pub billing_priority : Priority

-- `x or default`
abbrev pub or_default : ℕ → ℕ → ℕ
or_default x d = if x == 0 then d else x

abbrev pub clamp : ℕ → ℕ → ℕ → ℕ
clamp lo hi x = max lo (min hi x)

abbrev pub max_temp_token_concurrency : ℕ
max_temp_token_concurrency = 100

abbrev pub max_remote_generation_limit : ℕ
max_remote_generation_limit = 999

unfoldable pub normalize_retention_days : ℕ → ℕ
normalize_retention_days value = clamp 1 15 (or_default value 7)

-- `max(1, min(MAX_TEMP_TOKEN_CONCURRENCY, int(entry.get("concurrency") or 1)))`
unfoldable pub entry_concurrency : Entry → ℕ
entry_concurrency entry = clamp 1 max_temp_token_concurrency (or_default entry.concurrency 1)

unfoldable pub normalize_remote_generation_limit : Entry → ℕ
unfolding entry_concurrency
normalize_remote_generation_limit entry =
    if entry.remote_generation_limit == 0
    then entry_concurrency entry
    else clamp 1 max_remote_generation_limit entry.remote_generation_limit

unfoldable pub entry_video_quota_units : Entry → ℕ
entry_video_quota_units entry = elim (entry.video_quota_units) [
  | none ↦ entry.free_remaining
  | some units ↦ units
]

unfoldable pub set_entry_video_quota_units : Entry → ℕ → Entry
set_entry_video_quota_units entry units = record entry {
  free_remaining = units;
  video_quota_units = some units;
}

-- The combined balance in whole points, rounded up.
abbrev pub combined_limit : ℕ → ℕ → ℕ
combined_limit video_units credit_units =
    (video_units + credit_units + point_scale - 1) / point_scale

unfoldable pub sync_legacy_fields : Entry → Entry
unfolding entry_video_quota_units set_entry_video_quota_units
sync_legacy_fields entry =
    let video_units = entry_video_quota_units entry in
    let synced = set_entry_video_quota_units entry video_units in
    record synced { limit = combined_limit video_units entry.credit_units; used = 0 }

-- The branch of `_migrate_entry` below version 2; `max(0, a - b)` is the subtraction of ℕ.
unfoldable pub split_balance : Entry → ℕ → Entry
split_balance entry free_limit =
    let limit = max free_limit (or_default entry.limit free_limit) in
    record entry {
      free_remaining = (free_limit - entry.used) * point_scale;
      credit_units = (limit - max entry.used free_limit) * point_scale;
      reservations = [];
    }

-- The entry and whether it changed.
unfoldable pub migrate_entry : Entry → ℕ → Entry × Bool
unfolding split_balance sync_legacy_fields
migrate_entry entry free_limit =
    let split = if ltb entry.billing_version 2 then split_balance entry free_limit else entry in
    let current = set_entry_video_quota_units split split.free_remaining in
    if ltb entry.billing_version 3
    then (sync_legacy_fields (record current { billing_version = 3 }), true)
    else (entry, false)

-- The key by which closed reservations are sorted, newest first.
abbrev pub closed_at : Reservation → ℕ
closed_at r = or_default r.refunded_at r.created_at

unfoldable pub active_reservations : Dict Reservation → Dict Reservation
active_reservations [] = []
active_reservations ((task_id, r) ∷ rest) =
    let kept = active_reservations rest in
    elim (r.status) [ reserved ↦ (task_id, r) ∷ kept | refunded ↦ kept ]

unfoldable pub closed_reservations : Dict Reservation → Dict Reservation
closed_reservations [] = []
closed_reservations ((task_id, r) ∷ rest) =
    let kept = closed_reservations rest in
    elim (r.status) [ reserved ↦ kept | refunded ↦ (task_id, r) ∷ kept ]

-- `sort(key = closed_at, reverse = True)` is stable: an item goes before those of its own age.
unfoldable pub insert_closed : String × Reservation → Dict Reservation → Dict Reservation
insert_closed x [] = x ∷ []
insert_closed x (y ∷ ys) =
    let later = y ∷ insert_closed x ys in
    if leb (closed_at y.1) (closed_at x.1) then x ∷ y ∷ ys else later

unfoldable pub sort_closed : Dict Reservation → Dict Reservation
unfolding insert_closed
sort_closed [] = []
sort_closed (x ∷ xs) = insert_closed x (sort_closed xs)

-- No key stands twice in a `dict`, so the union of the two parts is their concatenation.
unfoldable pub prune_reservations : Entry → ℕ → Entry
unfolding active_reservations closed_reservations sort_closed
prune_reservations entry max_closed =
    if leb (length entry.reservations) max_closed then entry else record entry {
      reservations =
          active_reservations entry.reservations
          ++ take max_closed (sort_closed (closed_reservations entry.reservations));
    }

unfoldable pub get_temp_context_from_entry : String → Entry → AccessContext
unfolding entry_video_quota_units normalize_remote_generation_limit normalize_retention_days
get_temp_context_from_entry token_hash entry =
    let video_units = entry_video_quota_units entry in
    let limit = combined_limit video_units entry.credit_units in
    record {
      token_hash = token_hash;
      is_admin = false;
      is_temp = true;
      limit = limit;
      used = 0;
      remaining = limit;
      concurrency = entry_concurrency entry;
      remote_generation_limit = normalize_remote_generation_limit entry;
      task_retention_days = normalize_retention_days entry.task_retention_days;
      free_remaining = video_units;
      video_quota_units = video_units;
      credit_units = entry.credit_units;
      billing_priority = entry.billing_priority;
    }
