-- ===== src/Cards/Redemption.antt =====
-- app/point_cards.py: the redemption of a card, and what a card is worth.
use api.Base.{ℕ, ◌+◌, false, Option, none, some, String, ◌≡◌, refl, sym, ap, ◌∙◌, arith}
use api.Base.Text.{strip, str_take}
use api.Base.Dict.{lookup}
use api.Base.Result.{ok, err}
use api.Tokens.Entry.{Entry}
use api.Tokens.Held.{held}
use api.Tokens.Admin.{PublicToken, add_temp_credit_units}
use api.Cards.{
  Card, Shop, Error, card_used, is_unused, redeem_found, redeem_hash, redeem_card, redeeming,
}
use api.Cards.Credit.{
  finish-spent, finish-kept, finish-error, add-error, add-held, value, credited_entry,
}

module _ (normalize : String → String) (user token name : String) (now : ℕ) where
  found-spent :
      (hash : String) (found : Option Card) (shop : Shop) (r : Card × PublicToken)
      → let after = redeem_found normalize user token name now hash found shop in
        let credited = add_temp_credit_units normalize token r.0.points_units now shop.tokens in
        after.0 ≡ ok r
        → (lookup hash after.1.cards ≡ some r.0)
          × (is_unused r.0.status ≡ false)
          × (value found ≡ r.0.points_units)
          × (credited.0 ≡ ok r.1)
          × (after.1.tokens ≡ credited.1)
  unfolding redeem_found
  found-spent hash none shop r h = ground arith
  found-spent hash (some card) shop r h =
      let taken = record card {
        status = redeeming;
        redeemed_by = user;
        redeemed_username = str_take 80 (strip name);
      } in
      let credited = add_temp_credit_units normalize token card.points_units now shop.tokens in
      ground (arith, finish-spent hash taken now shop.cards credited r)

  found-kept :
      (hash : String) (found : Option Card) (shop : Shop) (e : Error) (other : String)
      → lookup hash shop.cards ≡ found
      → let after = redeem_found normalize user token name now hash found shop in
        after.0 ≡ err e → value (lookup other after.1.cards) ≡ value (lookup other shop.cards)
  unfolding redeem_found
  found-kept hash none shop e other c h = refl
  found-kept hash (some card) shop e other c h =
      let taken = record card {
        status = redeeming;
        redeemed_by = user;
        redeemed_username = str_take 80 (strip name);
      } in
      let credited = add_temp_credit_units normalize token card.points_units now shop.tokens in
      ground (arith, finish-kept hash card taken now shop.cards credited e other)

  found-error :
      (hash : String) (found : Option Card) (shop : Shop) (e : Error)
      → let after = redeem_found normalize user token name now hash found shop in
        after.0 ≡ err e → after.1.tokens ≡ shop.tokens
  unfolding redeem_found
  found-error hash none shop e h = refl
  found-error hash (some card) shop e h =
      let taken = record card {
        status = redeeming;
        redeemed_by = user;
        redeemed_username = str_take 80 (strip name);
      } in
      let credited = add_temp_credit_units normalize token card.points_units now shop.tokens in
      ground (
        arith,
        finish-error hash taken now shop.cards credited e,
        add-error normalize token card.points_units now shop.tokens,
      )

  found-again :
      (hash : String) (card : Card) (found : Option Card) (shop : Shop)
      → found ≡ some card
      → is_unused card.status ≡ false
      → redeem_found normalize user token name now hash found shop ≡ (err card_used, shop)
  unfolding redeem_found
  found-again hash card none shop f u = ground arith
  found-again hash card (some c) shop f u = ground arith

module _ (clean : String → String) (digest : String → Option String)
    (normalize : String → String) where
  hash-again :
      (user token name user' token' name' : String) (now later : ℕ) (hash : Option String)
      (shop : Shop) (r : Card × PublicToken)
      → let after = redeem_hash clean digest normalize user token name now hash shop in
        after.0 ≡ ok r
        → redeem_hash clean digest normalize user' token' name' later hash after.1
          ≡ (err card_used, after.1)
  unfolding redeem_hash
  hash-again user token name user' token' name' now later none shop r h = ground arith
  hash-again user token name user' token' name' now later (some hash) shop r h =
      let spent =
        found-spent normalize user token name now hash (lookup hash shop.cards) shop r h in
      let after =
        (redeem_found normalize user token name now hash (lookup hash shop.cards) shop).1 in
      found-again normalize user' token' name' later hash r.0 (lookup hash after.cards) after
        spent.0 spent.1

  hash-error :
      (user token name : String) (now : ℕ) (hash : Option String) (shop : Shop) (e : Error)
      (other : String)
      → let after = redeem_hash clean digest normalize user token name now hash shop in
        after.0 ≡ err e
        → (after.1.tokens ≡ shop.tokens)
          × (value (lookup other after.1.cards) ≡ value (lookup other shop.cards))
  unfolding redeem_hash
  hash-error user token name now none shop e other h = (refl, refl)
  hash-error user token name now (some hash) shop e other h =
      let found = lookup hash shop.cards in
      (
        found-error normalize user token name now hash found shop e h,
        found-kept normalize user token name now hash found shop e other refl h,
      )

  -- A card that was redeemed is refused afterwards, for whichever user and token, and nothing changes.
  pub redeem_once :
      (user token name user' token' name' code : String) (now later : ℕ) (shop : Shop)
      (r : Card × PublicToken)
      → let after = redeem_card clean digest normalize user token name now code shop in
        after.0 ≡ ok r
        → redeem_card clean digest normalize user' token' name' later code after.1
          ≡ (err card_used, after.1)
  unfolding redeem_card
  redeem_once user token name user' token' name' code now later shop r h =
      let hash = digest (clean (clean code)) in
      ground (arith, hash-again user token name user' token' name' now later hash shop r)

  -- An error gives no points to any token and takes from no card what can be redeemed for it.
  pub redeem-error :
      (user token name code other : String) (now : ℕ) (shop : Shop) (e : Error)
      → let after = redeem_card clean digest normalize user token name now code shop in
        after.0 ≡ err e
        → (after.1.tokens ≡ shop.tokens)
          × (value (lookup other after.1.cards) ≡ value (lookup other shop.cards))
  unfolding redeem_card
  redeem-error user token name code other now shop e h =
      ground (arith, hash-error user token name now (digest (clean (clean code))) shop e other)

  opened :
      (user token name code hash : String) (now : ℕ) (shop : Shop) (r : Card × PublicToken)
      → digest (clean (clean code)) ≡ some hash
      → let after = redeem_card clean digest normalize user token name now code shop in
        after.0 ≡ ok r
        → after ≡ redeem_found normalize user token name now hash (lookup hash shop.cards) shop
  unfolding redeem_card redeem_hash redeem_found
  opened user token name code hash now shop r d h =
      let found = redeem_found normalize user token name now hash (lookup hash shop.cards) shop in
      let to_hash : redeem_hash clean digest normalize user token name now
            (digest (clean (clean code))) shop
          ≡ found =
        rw (redeem_hash, d) refl in
      ground arith

  -- A redemption moves the value of a card to the points of the token: the card could be redeemed for
  -- them before and for nothing after, and the token's points, its open reservations included, grow by them,
  -- its video quota not. The token is at billing version 3.
  pub redeem-value :
      (user token name code hash : String) (now : ℕ) (shop : Shop) (entry : Entry)
      (r : Card × PublicToken)
      → digest (clean (clean code)) ≡ some hash
      → lookup (normalize token) shop.tokens ≡ some entry
      → entry.billing_version ≡ 3
      → let after = redeem_card clean digest normalize user token name now code shop in
        after.0 ≡ ok r
        → (raised : Entry) × (lookup (normalize token) after.1.tokens ≡ some raised)
          × ((held raised).0 ≡ (held entry).0)
          × ((held raised).1 ≡ (held entry).1 + value (lookup hash shop.cards))
          × (value (lookup hash after.1.cards) ≡ 0)
  redeem-value user token name code hash now shop entry r d there v h =
      let after = redeem_card clean digest normalize user token name now code shop in
      let found = redeem_found normalize user token name now hash (lookup hash shop.cards) shop in
      let same : after ≡ found = opened user token name code hash now shop r d h in
      let spent =
        found-spent normalize user token name now hash (lookup hash shop.cards) shop r
          (sym (ap (λ x. x.0) same) ∙ h) in
      let units = r.0.points_units in
      let raised = credited_entry units now entry in
      let held_after = add-held normalize token units now shop.tokens entry r.1 there v (spent.3) in
      (
        raised,
        ground (arith, same, spent, held_after),
        held_after.1,
        ground (arith, same, spent, held_after),
        ground (arith, same, spent, held_after),
      )
