-- ===== src/Tokens/History.antt =====
-- app/temp_access.py: a token under any sequence of calls. Each call is the whole function on the
-- stored tokens; a call that raises leaves them as they are.
use api.Base.{ℕ, ◌+◌, ◌*◌, ◌≡◌, ◌≢◌, String, List, [], ◌∷◌, Option, some}
use api.Base.Dict.{lookup}
use api.Base.Result.{Result, ok, err}
use api.Billing.{Decimal, points_to_units}
use api.Tokens.Entry.{Entry, AccessContext}
use api.Tokens.Quota.{World, reserve_temp_quota, refund_temp_quota_hash}
use api.Tokens.Admin.{
  Update, update_temp_token, deduct_temp_points, purchase_temp_membership, add_temp_credit_units,
}
use api.Tokens.Held.{held}

-- A call, with its arguments.
pub data Call : Type 0 where
  reserve : (task user : String) (cost video_cost now : ℕ) → Call
  refund : (task fresh : String) (now : ℕ) → Call
  add_credit : (units now : ℕ) → Call
  deduct : (free_limit : ℕ) (amount : Option Decimal) (now : ℕ) → Call
  purchase : (free_limit : ℕ) (cost : Option Decimal) (bonus concurrency now : ℕ) → Call
  update : Update → (now : ℕ) → Call

-- What a call brought in and took out, in units of points and of video quota.
pub record Flow : Type 0 where
  pub credit_in : ℕ
  pub credit_out : ℕ
  pub video_in : ℕ

abbrev pub no_flow : Flow
no_flow = record { credit_in = 0; credit_out = 0; video_in = 0 }

abbrev pub add_flow : Flow → Flow → Flow
add_flow a b = record {
  credit_in = a.credit_in + b.credit_in;
  credit_out = a.credit_out + b.credit_out;
  video_in = a.video_in + b.video_in;
}

abbrev pub paid_units : Option Decimal → ℕ
paid_units amount = elim (points_to_units amount) [ err _ ↦ 0 | ok units ↦ units ]

-- The flow of a call that returned; one that raised has none.
abbrev pub flow_if {ℓ κ} : {E : Type ℓ} {A : Type κ} → Result E A → Flow → Flow
flow_if (ok _) f = f
flow_if (err _) _ = no_flow

module _ (normalize : String → String) (access : AccessContext) where
  -- One call by the token of `access`, whose hash is stored as it is.
  unfoldable pub call : Call → World → World × Flow
  call (reserve task user cost video_cost now) w =
      let (_, tokens) = reserve_temp_quota access task cost user video_cost now w.tokens in
      (record w { tokens = tokens }, no_flow)
  call (refund task fresh now) w =
      let (_, after) = refund_temp_quota_hash normalize access.token_hash task fresh now w in
      (after, no_flow)
  call (add_credit units now) w =
      let (r, tokens) = add_temp_credit_units normalize access.token_hash units now w.tokens in
      (
        record w { tokens = tokens },
        flow_if r (record { credit_in = units; credit_out = 0; video_in = 0 }),
      )
  call (deduct free_limit amount now) w =
      let (r, tokens) =
        deduct_temp_points normalize access.token_hash free_limit amount now w.tokens in
      (
        record w { tokens = tokens },
        flow_if r (record { credit_in = 0; credit_out = paid_units amount; video_in = 0 }),
      )
  call (purchase free_limit cost bonus concurrency now) w =
      let (r, tokens) =
        purchase_temp_membership normalize access.token_hash free_limit cost bonus concurrency now
          w.tokens in
      (
        record w { tokens = tokens },
        flow_if r (record { credit_in = 0; credit_out = paid_units cost; video_in = bonus * 10 }),
      )
  call (update u now) w =
      let (r, tokens) = update_temp_token normalize access.token_hash u now w.tokens in
      (record w { tokens = tokens }, flow_if r no_flow)

  unfoldable pub calls : List Call → World → World × Flow
  calls [] w = (w, no_flow)
  calls (c ∷ cs) w =
      let (next, flow) = call c w in
      let (last, flows) = calls cs next in (last, add_flow flow flows)

  -- Reservations and refunds name a task.
  abbrev pub IsNamed : Call → Type 0
  IsNamed (reserve task user cost video_cost now) = task ≢ ""
  IsNamed (refund task fresh now) = task ≢ ""
  IsNamed _ = Unit

  abbrev pub AllNamed : List Call → Type 0
  AllNamed [] = Unit
  AllNamed (c ∷ cs) = IsNamed c × AllNamed cs

  -- The token is stored at version 3 and holds this much, its open reservations included.
  pub record Holds (w : World) (video credit : ℕ) : Type 0 where
    pub entry : Entry
    pub stored : lookup access.token_hash w.tokens ≡ some entry
    pub current : entry.billing_version ≡ 3
    pub video_held : (held entry).0 ≡ video
    pub credit_held : (held entry).1 ≡ credit
