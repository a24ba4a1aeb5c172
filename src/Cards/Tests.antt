-- ===== src/Cards/Tests.antt =====
-- A small shop, what app/point_cards.py does with it, and instances of the theorems.
use api.Base.{◌+◌, [], ◌∷◌, some, String, ◌≡◌, refl, Option}
use api.Base.Dict.{lookup, insert}
use api.Base.Result.{err}
use api.Base.Text.{strip}
use api.Tokens.Entry.{
  entry_concurrency, normalize_remote_generation_limit, video_first, Entry, migrate_entry,
  sync_legacy_fields,
}
use api.Tokens.Admin.{PublicToken, public_token, mutate_token, credit_entry, add_temp_credit_units}
use api.Tokens.Held.{held}
use api.Cards.{
  Card, Shop, card_used, card_not_found, unused, redeemed, str_length, finish_redemption,
  redeem_found, redeem_hash, redeem_card,
}
use api.Cards.Credit.{value}
use api.Cards.Redemption.{redeem_once, redeem-error, redeem-value}

abbrev entry : Entry
entry = record {
  token = "tmp_a";
  limit = 8;
  used = 0;
  concurrency = 1;
  remote_generation_limit = 0;
  task_retention_days = 7;
  remark = "";
  free_remaining = 30;
  video_quota_units = some 30;
  credit_units = 50;
  billing_priority = video_first;
  billing_version = 3;
  reservations = [];
  quota_refund_ids = [];
  created_at = 1;
  updated_at = 1;
}

abbrev card : Card
card = record {
  id = "c1";
  code_hash = "HSAAAABBBBCCCC";
  code = "HS-AAAA-BBBB-CCCC";
  points_units = 25;
  status = unused;
  note = "";
  created_at = 1;
  redeemed_at = 0;
  redeemed_by = "";
  redeemed_username = "";
}

abbrev code : String
code = "HSAAAABBBBCCCC"

abbrev shop : Shop
shop = record { cards = (code, card) ∷ []; tokens = ("a", entry) ∷ [] }

abbrev same : String → String
same s = s

abbrev digest : String → Option String
digest s = some s

redeemed_card : Card × PublicToken
redeemed_card = (
  record card { status = redeemed; redeemed_at = 9; redeemed_by = "u" },
  public_token "a" (record entry { limit = 11; credit_units = 75; updated_at = 9 }),
)

program : Unit {0}
unfolding redeem_card redeem_hash redeem_found finish_redemption str_length lookup insert
    add_temp_credit_units mutate_token credit_entry migrate_entry sync_legacy_fields public_token
    redeemed_card strip entry_concurrency normalize_remote_generation_limit
program = tt

redeem_once_example :
    let after = redeem_card same digest same "u" "a" "" 9 code shop in
    redeem_card same digest same "v" "b" "" 10 code after.1 ≡ (err card_used, after.1)
unfolding program
redeem_once_example =
    redeem_once same digest same "u" "a" "" "v" "b" "" code 9 10 shop redeemed_card refl

redeem-error_example :
    let after = redeem_card same digest same "u" "a" "" 9 "HSAAAABBBBCCCD" shop in
    (after.1.tokens ≡ shop.tokens)
    × (value (lookup code after.1.cards) ≡ value (lookup code shop.cards))
unfolding program
redeem-error_example =
    redeem-error same digest same "u" "a" "" "HSAAAABBBBCCCD" code 9 shop card_not_found refl

redeem-value_example :
    let after = redeem_card same digest same "u" "a" "" 9 code shop in
    (raised : Entry) × (lookup "a" after.1.tokens ≡ some raised)
    × ((held raised).0 ≡ (held entry).0)
    × ((held raised).1 ≡ (held entry).1 + value (lookup code shop.cards))
    × (value (lookup code after.1.cards) ≡ 0)
unfolding program
redeem-value_example =
    redeem-value same digest same "u" "a" "" code code 9 shop entry redeemed_card refl refl refl
      refl
