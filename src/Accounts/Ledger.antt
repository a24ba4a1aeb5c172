-- ===== src/Accounts/Ledger.antt =====
-- app/accounts.py, the ledger of a quota: a base and the charges of tasks. The default quota and that
-- of the studio have the same fields under other names, so the functions for either are one here. A
-- time is an instant and a date a day, 0 for an absent one; 0 units are absent ones.
use api.Base.{
  ℕ, ◌+◌, ◌-◌, max, Bool, true, false, ◌&&◌, not, Option, none, some, List, [], ◌∷◌, ◌++◌, String,
  str_eq, if◌then◌else◌,
}

pub data ChargeStatus : Type 0 where
  charged settled refunded : ChargeStatus

pub data Reason : Type 0 where
  no_reason result_timeout quota_insufficient : Reason

pub record Charge : Type 0 where
  pub charge_id : String
  pub task_id : String
  pub units : ℕ
  pub status : ChargeStatus
  pub charged_at : ℕ
  pub refunded_at : ℕ
  pub refund_reason : Reason
  pub settled_at : ℕ
  pub settle_reason : Reason

-- `limit` is `none` where no key is stored.
pub record Ledger : Type 0 where
  pub limit : Option ℕ
  pub used : ℕ
  pub base : ℕ
  pub initialized : Bool
  pub charges : List Charge
  pub exhausted_date : ℕ

-- In force: charged or settled.
abbrev pub is_active : ChargeStatus → Bool
is_active refunded = false
is_active _ = true

abbrev pub is_charged : ChargeStatus → Bool
is_charged charged = true
is_charged _ = false

abbrev pub is_named : Charge → Bool
is_named c = not (str_eq c.charge_id "")

-- `_quota_charges`
unfoldable pub quota_charges : List Charge → List Charge
quota_charges [] = []
quota_charges (c ∷ cs) = let rest = quota_charges cs in if is_named c then c ∷ rest else rest

-- The sum of the units of the charges in force.
unfoldable pub active_units : List Charge → ℕ
active_units [] = 0
active_units (c ∷ cs) =
    let rest = active_units cs in if is_active c.status then max 1 c.units + rest else rest

-- `_reconciled_quota_used`
unfoldable pub reconciled_used : Ledger → ℕ
reconciled_used l = l.base + active_units (quota_charges l.charges)

-- `_initialize_quota_ledger`
unfoldable pub initialize_ledger : Ledger → Ledger
initialize_ledger l = record l {
  base = if l.initialized then l.base else l.used;
  initialized = true;
  charges = quota_charges l.charges;
}

-- `_reconcile_account`, of an account to which it applies.
unfoldable pub reconcile_ledger : Ledger → Ledger
reconcile_ledger l =
    if l.initialized
    then record l { charges = quota_charges l.charges; used = reconciled_used l }
    else l

-- A new day, or a reset by hand.
unfoldable pub reset_ledger : Ledger → Ledger
reset_ledger l = record l {
  used = 0;
  base = 0;
  charges = [];
  initialized = true;
  exhausted_date = 0;
}

-- The charges with the first named one that has the identifier and passes the test changed; `none`
-- where there is none.
unfoldable pub mark_charge :
    String → (ChargeStatus → Bool) → (Charge → Charge) → List Charge → Option (List Charge)
mark_charge id test change [] = none
mark_charge id test change (c ∷ cs) =
    let later = elim (mark_charge id test change cs) as (λ _. Option (List Charge)) [
      | none ↦ none
      | some rest ↦ some (c ∷ rest)
    ] in
    if is_named c && str_eq c.charge_id id && test c.status then some (change c ∷ cs) else later

unfoldable pub add_charge : String → String → ℕ → ℕ → Ledger → Ledger
unfolding initialize_ledger
add_charge charge_id task_id cost now l =
    let ledger = initialize_ledger l in
    let new : Charge = record {
      charge_id = charge_id;
      task_id = task_id;
      units = cost;
      status = charged;
      charged_at = now;
      refunded_at = 0;
      refund_reason = no_reason;
      settled_at = 0;
      settle_reason = no_reason;
    } in
    let after = record ledger { charges = ledger.charges ++ new ∷ [] } in
    record after { used = reconciled_used after }

abbrev refund_charge : Reason → ℕ → Charge → Charge
refund_charge reason now c = record c {
  status = refunded;
  refunded_at = now;
  refund_reason = reason;
}

-- The ledger with the charges that came out, and whether any did.
abbrev pub recounted : Option (List Charge) → Ledger → Bool × Ledger
recounted none l = (false, l)
recounted (some cs) l =
    let marked = record l { charges = cs } in
    (true, record marked { used = reconciled_used marked })

-- The part of `refund_account_quota` for a ledger, of a ledger that is in use.
unfoldable pub refund_ledger : String → ℕ → Ledger → Bool × Ledger
refund_ledger id now l =
    recounted
      (mark_charge id is_charged (λ c. record c { status = refunded; refunded_at = now }) l.charges)
      l

-- The part of `settle_account_quota` for a ledger.
unfoldable pub settle_ledger : String → ℕ → Ledger → Bool × Ledger
settle_ledger id now l =
    recounted
      (mark_charge id is_charged (λ c. record c { status = settled; settled_at = now }) l.charges) l

-- What came out, if a charge was found, else the other list.
abbrev pub marked_or : Option (List Charge) → List Charge → List Charge
marked_or none cs = cs
marked_or (some marked) cs = marked

abbrev pub any_status : ChargeStatus → Bool
any_status _ = true

-- A charge that only the exhaustion knows of.
abbrev unknown_charge : String → ChargeStatus → ℕ → Charge
unknown_charge id status now = record {
  charge_id = id;
  task_id = "";
  units = 0;
  status = status;
  charged_at = 0;
  refunded_at = 0;
  refund_reason = no_reason;
  settled_at = now;
  settle_reason = result_timeout;
}

abbrev settle_timeout : ℕ → Charge → Charge
settle_timeout now c = record c {
  status = settled;
  settled_at = now;
  settle_reason = result_timeout;
  refunded_at = 0;
  refund_reason = no_reason;
}

-- The charges after a generation that timed out, which is settled whatever it was.
unfoldable pub timed_out_charges : String → ℕ → List Charge → List Charge
timed_out_charges id now cs =
    marked_or (mark_charge id any_status (settle_timeout now) cs)
      (cs ++ unknown_charge id settled now ∷ [])

-- `exhaust_timed_out_account`, the default quota.
unfoldable pub time_out_ledger : String → (today now : ℕ) → Ledger → Ledger
unfolding initialize_ledger
time_out_ledger id today now l =
    let ledger = initialize_ledger l in
    let after = record ledger { charges = timed_out_charges id now ledger.charges } in
    if str_eq id ""
    then record l { used = max 1 l.used; exhausted_date = today }
    else record after { used = reconciled_used after; exhausted_date = today }

-- The charges of which the named one, if it is charged, is given back.
unfoldable pub insufficient_charges : String → ℕ → List Charge → List Charge
insufficient_charges id now cs =
    marked_or (mark_charge id is_charged (refund_charge quota_insufficient now) cs) cs

-- `max(1, int(limit or 1))`
abbrev pub limit_one : Option ℕ → ℕ
limit_one none = 1
limit_one (some n) = max 1 n

-- `exhaust_account_quota`, the default quota.
unfoldable pub exhaust_ledger : String → (today now : ℕ) → Ledger → Ledger
exhaust_ledger id today now l =
    let limit = limit_one l.limit in
    let charges = insufficient_charges id now l.charges in
    let after = record l {
      charges = charges;
      base = limit - active_units (quota_charges charges);
    } in
    if not (str_eq id "") && l.initialized
    then record after {
      limit = some limit;
      used = max limit (reconciled_used after);
      exhausted_date = today;
    }
    else record l { limit = some limit; used = max limit l.used; exhausted_date = today }

abbrev pub default_studio_limit : ℕ
default_studio_limit = 60

-- `max(1, int(limit or 1))` with the default of the studio.
abbrev pub studio_limit_one : Option ℕ → ℕ
studio_limit_one none = default_studio_limit
studio_limit_one (some n) = max 1 n

-- A refusal gives a charge back only while it is charged.
abbrev pub refund_charged : ℕ → Charge → Charge
refund_charged now c = if is_charged c.status then refund_charge quota_insufficient now c else c

-- The studio's charges after a refusal: the first with the identifier is given back if it is charged;
-- where there is none, one is put in as refunded.
unfoldable pub studio_insufficient_charges : String → ℕ → List Charge → List Charge
studio_insufficient_charges id now cs =
    let absent : Charge = record (unknown_charge id refunded 0) { settle_reason = no_reason } in
    if str_eq id ""
    then cs
    else marked_or (mark_charge id any_status (refund_charged now) cs) (cs ++ absent ∷ [])

-- `_exhaust_studio_account_quota` of a refusal, and of a generation that timed out.
unfoldable pub exhaust_studio : String → (today now : ℕ) → Ledger → Ledger
unfolding initialize_ledger
exhaust_studio id today now l =
    let limit = studio_limit_one l.limit in
    let ledger = initialize_ledger l in
    let charges = studio_insufficient_charges id now ledger.charges in
    let after = record ledger {
      charges = charges;
      base = limit - active_units charges;
      limit = some limit;
      exhausted_date = today;
    } in
    record after { used = max limit (reconciled_used after) }

unfoldable pub time_out_studio : String → (today now : ℕ) → Ledger → Ledger
unfolding initialize_ledger
time_out_studio id today now l =
    let ledger = initialize_ledger l in
    let charges =
      if str_eq id "" then ledger.charges else timed_out_charges id now ledger.charges in
    let after = record ledger {
      charges = charges;
      limit = some (studio_limit_one l.limit);
      exhausted_date = today;
    } in
    record after { used = max 1 (reconciled_used after) }
