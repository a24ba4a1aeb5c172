-- ===== src/Cards/Credit.antt =====
-- app/point_cards.py with app/temp_access.py: the crediting of a card that is taken.
use api.Base.{
  ℕ, ◌+◌, Bool, true, false, Option, none, some, String, ◌≡◌, refl, arith, eq_iff, inl, inr,
  if◌then◌else◌, Option-cases,
}
use api.Tokens.Quota.{Tokens}
use api.Base.Dict.{Dict, lookup, insert, lookup-insert}
use api.Base.Result.{Result, ok, err}
use api.Tokens.Entry.{Entry, migrate_entry, sync_legacy_fields}
use api.Tokens.Held.{held}
use api.Tokens.Admin
use api.Tokens.Admin.{PublicToken, public_token, mutate_token, credit_entry, add_temp_credit_units}
use api.Tokens.AdminLaws.{credit_entry-held}
use api.Cards.{Card, Error, is_unused, finish_redemption, unused, redeemed}

abbrev pub ok_or_error : {A : Type 0} → Result Admin.Error A → Bool
ok_or_error (ok a) = true
ok_or_error (err e) = false

pub finish-spent :
    (hash : String) (taken : Card) (now : ℕ) (cards : Dict Card)
    (credited : Result Admin.Error PublicToken × Tokens) (r : Card × PublicToken)
    → let after = finish_redemption hash taken now cards credited in
      after.0 ≡ ok r
      → (lookup hash after.1.cards ≡ some r.0)
        × (is_unused r.0.status ≡ false)
        × (r.0.points_units ≡ taken.points_units)
        × (credited.0 ≡ ok r.1)
        × (after.1.tokens ≡ credited.1)
unfolding finish_redemption
finish-spent hash taken now cards (ok b, tokens) r h = ground (
  arith,
  lookup-insert hash hash (record taken { status = redeemed; redeemed_at = now }) cards,
  eq_iff hash hash,
)
finish-spent hash taken now cards (err b, tokens) r h = ground arith

-- What can still be redeemed under a digest.
abbrev pub value : Option Card → ℕ
value none = 0
value (some card) = if is_unused card.status then card.points_units else 0

pub finish-kept :
    (hash : String) (card taken : Card) (now : ℕ) (cards : Dict Card)
    (credited : Result Admin.Error PublicToken × Tokens) (e : Error) (other : String)
    → lookup hash cards ≡ some card
    → is_unused card.status ≡ true
    → taken.points_units ≡ card.points_units
    → let after = finish_redemption hash taken now cards credited in
      after.0 ≡ err e → value (lookup other after.1.cards) ≡ value (lookup other cards)
unfolding finish_redemption
finish-kept hash card taken now cards (ok b, tokens) e other c u p h = ground arith
finish-kept hash card taken now cards (err b, tokens) e other c u p h =
    let put_back = record taken { status = unused; redeemed_by = ""; redeemed_username = "" } in
    ground (arith, lookup-insert hash other put_back cards, eq_iff hash other)

pub finish-error :
    (hash : String) (taken : Card) (now : ℕ) (cards : Dict Card)
    (credited : Result Admin.Error PublicToken × Tokens) (e : Error)
    → let after = finish_redemption hash taken now cards credited in
      after.0 ≡ err e → (after.1.tokens ≡ credited.1) × (ok_or_error credited.0 ≡ false)
unfolding finish_redemption
finish-error hash taken now cards (ok b, tokens) e h = ground arith
finish-error hash taken now cards (err b, tokens) e h = ground arith

mutate-found :
    (change : Entry → Result Admin.Error Entry) (hash : String) (tokens : Tokens) (e e' : Entry)
    → lookup hash tokens ≡ some e
    → change e ≡ ok e'
    → mutate_token change hash tokens ≡ (ok (public_token hash e'), insert hash e' tokens)
unfolding mutate_token public_token insert
mutate-found change hash tokens e e' there done = rw (mutate_token, there, done) refl

mutate-missing :
    (change : Entry → Result Admin.Error Entry) (hash : String) (tokens : Tokens)
    → lookup hash tokens ≡ none
    → mutate_token change hash tokens ≡ (err Admin.token_not_found, tokens)
unfolding mutate_token
mutate-missing change hash tokens missing = rw (mutate_token, missing) refl

unfoldable pub credited_entry : ℕ → ℕ → Entry → Entry
credited_entry units now e =
    let entry = (migrate_entry e 0).0 in
    record (sync_legacy_fields (record entry { credit_units = entry.credit_units + units })) {
      updated_at = now;
    }

credit_entry-ok :
    (units now : ℕ) (e : Entry) → credit_entry units now e ≡ ok (credited_entry units now e)
unfolding credit_entry credited_entry
credit_entry-ok units now e = refl

pub add-error :
    (normalize : String → String) (token : String) (units now : ℕ) (tokens : Tokens)
    → let after = add_temp_credit_units normalize token units now tokens in
      ok_or_error after.0 ≡ false → after.1 ≡ tokens
unfolding add_temp_credit_units
add-error normalize token units now tokens h =
    elim (Option-cases (lookup (normalize token) tokens)) [
      | inl missing ↦
          ground (arith, mutate-missing (credit_entry units now) (normalize token) tokens missing)
      | inr (e, there) ↦ ground (
        arith,
        mutate-found (credit_entry units now) (normalize token) tokens e
            (credited_entry units now e) there (credit_entry-ok units now e),
      )
    ]

pub add-held :
    (normalize : String → String) (token : String) (units now : ℕ) (tokens : Tokens) (e : Entry)
    (b : PublicToken)
    → lookup (normalize token) tokens ≡ some e
    → e.billing_version ≡ 3
    → let after = add_temp_credit_units normalize token units now tokens in
      let raised = credited_entry units now e in
      after.0 ≡ ok b
      → (lookup (normalize token) after.1 ≡ some raised)
        × ((held raised).0 ≡ (held e).0)
        × ((held raised).1 ≡ (held e).1 + units)
unfolding add_temp_credit_units
add-held normalize token units now tokens e b there v h =
    let hash = normalize token in
    let raised = credited_entry units now e in
    ground (
      arith,
      mutate-found (credit_entry units now) hash tokens e raised there
          (credit_entry-ok units now e),
      credit_entry-held units now e raised v (credit_entry-ok units now e),
      lookup-insert hash hash raised tokens,
      eq_iff hash hash,
    )
