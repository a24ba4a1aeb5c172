-- ===== src/Cards.antt =====
-- app/point_cards.py: cards of points, each redeemed to the balance of a token. `clean` is
-- `_normalize` (upper case, then letters and digits, which are tables of Unicode), `digest` the
-- SHA-256 of a cleaned code, without one when the code is not ASCII, and `normalize` the
-- `strip().lower()` of a token's hash. A code and an identifier are drawn at random, so they are
-- arguments; the hint and the points shown with a card are read from its other fields.
pub mod Credit
pub mod Redemption
mod Tests
use api.Base.{
  ℕ, zero, suc, Bool, true, false, ◌&&◌, ◌||◌, not, Option, none, some, List, [], ◌∷◌, String,
  str_eq, ltb, leb, ◌==◌, if◌then◌else◌, length,
}
use api.Base.Dict.{Dict, lookup, insert}
use api.Base.Result.{Result, ok, err}
use api.Base.Text.{str_take, strip}
use api.Billing
use api.Billing.{Decimal, points_to_units}
use api.Tokens.Quota.{Tokens}
use api.Tokens.Admin
use api.Tokens.Admin.{PublicToken, add_temp_credit_units}

pub data CardStatus : Type 0 where
  unused redeeming redeemed : CardStatus

pub record Card : Type 0 where
  pub id : String
  pub code_hash : String
  pub code : String
  pub points_units : ℕ
  pub status : CardStatus
  pub note : String
  pub created_at : ℕ
  pub redeemed_at : ℕ
  pub redeemed_by : String
  pub redeemed_username : String

pub data Error : Type 0 where
  bad_points : Billing.Error → Error
  bad_count bad_code not_ascii card_not_found card_used bad_status nothing_selected : Error
  not_credited : Admin.Error → Error

-- The documents of the cards and of the tokens.
pub record Shop : Type 0 where
  pub cards : Dict Card
  pub tokens : Tokens

abbrev pub is_unused : CardStatus → Bool
is_unused unused = true
is_unused _ = false

abbrev pub is_redeemed : CardStatus → Bool
is_redeemed redeemed = true
is_redeemed _ = false

unfoldable pub str_length : String → ℕ
str_length String.[] = 0
str_length (String.◌∷◌ c s) = suc (str_length s)

abbrev some_text : String → List String → Bool
some_text s [] = false
some_text s (t ∷ rest) = not (str_eq (strip t) "") && str_eq (strip t) s || some_text s rest

abbrev none_text : List String → Bool
none_text [] = true
none_text (t ∷ rest) = str_eq (strip t) "" && none_text rest

abbrev pub keep_cards : (Card → Bool) → Dict Card → Dict Card
keep_cards keep [] = []
keep_cards keep ((k, c) ∷ rest) =
    let kept = keep_cards keep rest in if keep c then (k, c) ∷ kept else kept

-- `delete_cards`, with the status read as an option (`none` for the empty text); the number of the
-- cards deleted is the difference of the lengths.
unfoldable pub delete_cards : List String → Option CardStatus → Dict Card → Result Error (Dict Card)
delete_cards ids status cards = elim status as (λ _. Result Error (Dict Card)) [
  | none ↦
      if none_text ids
      then err nothing_selected
      else ok (keep_cards (λ c. not (some_text c.id ids)) cards)
  | some unused ↦ ok (keep_cards (λ c. not (some_text c.id ids || is_unused c.status)) cards)
  | some redeemed ↦ ok (keep_cards (λ c. not (some_text c.id ids || is_redeemed c.status)) cards)
  | some redeeming ↦ err bad_status
]

-- Cards without a full code, of an earlier version.
unfoldable pub purge_legacy_cards : Dict Card → Dict Card
purge_legacy_cards cards = keep_cards (λ c. not (str_eq (strip c.code) "")) cards

-- What follows the crediting of a card that is taken: it is spent, or put back by an error.
unfoldable pub finish_redemption :
    String
    → Card
    → ℕ
    → Dict Card
    → Result Admin.Error PublicToken × Tokens
    → Result Error (Card × PublicToken) × Shop
finish_redemption hash taken now cards (err e, tokens) =
    let put_back = record taken { status = unused; redeemed_by = ""; redeemed_username = "" } in
    (err (not_credited e), record { cards = insert hash put_back cards; tokens = tokens })
finish_redemption hash taken now cards (ok balance, tokens) =
    let spent = record taken { status = redeemed; redeemed_at = now } in
    (ok (spent, balance), record { cards = insert hash spent cards; tokens = tokens })

module _ (normalize : String → String) (user_id token_hash username : String) (now : ℕ) where
  unfoldable pub redeem_found :
      String → Option Card → Shop → Result Error (Card × PublicToken) × Shop
  redeem_found hash none shop = (err card_not_found, shop)
  redeem_found hash (some card) shop =
      let taken = record card {
        status = redeeming;
        redeemed_by = user_id;
        redeemed_username = str_take 80 (strip username);
      } in
      let credited = add_temp_credit_units normalize token_hash card.points_units now shop.tokens in
      if is_unused card.status
      then finish_redemption hash taken now shop.cards credited
      else (err card_used, shop)

module _ (clean : String → String) (digest : String → Option String) where
  unfoldable pub insert_cards :
      ℕ → String → ℕ → List (String × String) → Dict Card → Result Error (Dict Card)
  insert_cards units note now [] cards = ok cards
  insert_cards units note now ((code, id) ∷ draws) cards =
      elim (digest (clean code)) as (λ _. Result Error (Dict Card)) [
        | none ↦ err not_ascii
        | some hash ↦ insert_cards units note now draws (
            insert hash
              (record {
                id = id;
                code_hash = hash;
                code = code;
                points_units = units;
                status = unused;
                note = str_take 120 (strip note);
                created_at = now;
                redeemed_at = 0;
                redeemed_by = "";
                redeemed_username = "";
              })
              cards)
      ]

  -- One draw of a code and an identifier for each card; their number is `count`.
  unfoldable pub generate_cards :
      Option Decimal → String → ℕ → List (String × String) → Dict Card → Result Error (Dict Card)
  unfolding insert_cards
  generate_cards points note now draws cards =
      elim (points_to_units points) as (λ _. Result Error (Dict Card)) [
        | err e ↦ err (bad_points e)
        | ok units ↦
            if ltb (length draws) 1 || ltb 200 (length draws)
            then err bad_count
            else insert_cards units note now draws cards
      ]

  module _ (normalize : String → String) (user_id token_hash username : String) (now : ℕ) where
    unfoldable pub redeem_hash : Option String → Shop → Result Error (Card × PublicToken) × Shop
    redeem_hash none shop = (err not_ascii, shop)
    redeem_hash (some hash) shop =
        redeem_found normalize user_id token_hash username now hash (lookup hash shop.cards) shop

    unfoldable pub redeem_card : String → Shop → Result Error (Card × PublicToken) × Shop
    redeem_card code shop =
        let normalized = clean code in
        if ltb (str_length normalized) 12
        then (err bad_code, shop)
        else redeem_hash (digest (clean normalized)) shop
