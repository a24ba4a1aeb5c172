-- ===== src/Accounts/Preference/Laws.antt =====
-- app/accounts.py, `_select_account`: the filter and the order of the code are those of the preference
-- that is written out by itself.
use api.Base.{
  ℕ, Bool, true, List, [], ◌∷◌, String, ◌≡◌, ◌≢◌, inl, inr, refl, sym, ◌∙◌, arith, if◌then◌else◌,
  ◌==◌, ◌&&◌, ◌||◌, not,
}
use api.Accounts.Account.{Account}
use api.Accounts.Select.{
  Request, supports_duration, has_studio_ticket, quota_available, quota_remaining, studio_quota,
  ledger_of, synced_remaining, is_available, source_priority, before, is_before,
}
use api.Accounts.Preference.{
  HasTicket, IsStudio, IsPlain, Lasts, StudioLeft, Pays, MayHave, favours, left_of, used_of,
  Precedes, Earlier,
}

both : {a b : Bool} → a ≡ true → b ≡ true → (a && b) ≡ true
both p q = ground arith

before-Earlier :
    (f : Bool) (l u t : ℕ) (f1 : Bool) (l1 u1 t1 : ℕ)
    → before (if f then 0 else 1) l u t (if f1 then 0 else 1) l1 u1 t1 ≡ true
    → Earlier f l u t f1 l1 u1 t1
unfolding before
before-Earlier f l u t f1 l1 u1 t1 h = ground arith

Earlier-before :
    (f : Bool) (l u t : ℕ) (f1 : Bool) (l1 u1 t1 : ℕ)
    → Earlier f l u t f1 l1 u1 t1
    → before (if f then 0 else 1) l u t (if f1 then 0 else 1) l1 u1 t1 ≡ true
unfolding before
Earlier-before f l u t f1 l1 u1 t1 h = ground arith

module _ (unescape : String → String) (today now : ℕ) (r : Request) where
  ticket-HasTicket :
      (cookies : List (String × String))
      → has_studio_ticket unescape cookies ≡ true
      → HasTicket unescape cookies
  unfolding has_studio_ticket
  ticket-HasTicket [] h = absurd (ground arith)
  ticket-HasTicket ((name, value) ∷ cookies) h = ground (arith, ticket-HasTicket cookies)

  HasTicket-ticket :
      (cookies : List (String × String))
      → HasTicket unescape cookies
      → has_studio_ticket unescape cookies ≡ true
  unfolding has_studio_ticket
  HasTicket-ticket [] h = elim h [ ]
  HasTicket-ticket (cookie ∷ cookies) (inl h) = ground arith
  HasTicket-ticket (cookie ∷ cookies) (inr h) = ground (arith, HasTicket-ticket cookies h)

  Pays-quota : (a : Account) → Pays unescape today now r a → quota_available r today a ≡ true
  unfolding quota_available synced_remaining
  Pays-quota a h = ground arith

  quota-Pays :
      (a : Account)
      → quota_available r today a ≡ true
      → a.quota.exhausted_date ≢ today
      → IsPlain unescape today now r
      → Pays unescape today now r a
  unfolding quota_available synced_remaining
  quota-Pays a h e p = ground arith

  quota-StudioLeft :
      (a : Account)
      → quota_available r today a ≡ true
      → IsStudio unescape today now r
      → StudioLeft unescape today now r a
  unfolding quota_available synced_remaining
  quota-StudioLeft a h s = ground arith

  Lasts-supports :
      (a : Account)
      → Lasts unescape today now r a
      → supports_duration r.platform r.duration a ≡ true
  unfolding supports_duration
  Lasts-supports a h = ground arith

  Pays-ticket :
      (a : Account)
      → Pays unescape today now r a
      → (not (studio_quota r) || has_studio_ticket unescape a.cookies) ≡ true
  Pays-ticket a (inl h) = ground (arith, HasTicket-ticket a.cookies h.1)
  Pays-ticket a (inr h) = ground arith

  Pays-date :
      (a : Account)
      → Pays unescape today now r a
      → not ((ledger_of r a).exhausted_date == today) ≡ true
  Pays-date a h = ground arith

  pub MayHave-available :
      (a : Account) → MayHave unescape today now r a → is_available unescape today now r a ≡ true
  unfolding is_available
  MayHave-available a (enabled, status, platform, lasts, free, chosen, idle, cookies, cool, pays) =
      both
        (both
          (both
            (both
              (both
                (both
                  (both
                    (both
                      (both (both (both enabled (ground arith)) platform) (Lasts-supports a lasts))
                      (ground arith))
                    (ground arith))
                  idle)
                (ground arith))
              (Pays-ticket a pays))
            (ground arith))
          (Pays-date a pays))
        (Pays-quota a pays)

  available-Pays :
      (a : Account) → is_available unescape today now r a ≡ true → Pays unescape today now r a
  unfolding is_available
  available-Pays a h = ground (arith, quota-Pays a, quota-StudioLeft a, ticket-HasTicket a.cookies)

  available-Lasts :
      (a : Account) → is_available unescape today now r a ≡ true → Lasts unescape today now r a
  unfolding is_available supports_duration
  available-Lasts a h = ground arith

  pub available-MayHave :
      (a : Account) → is_available unescape today now r a ≡ true → MayHave unescape today now r a
  unfolding is_available
  available-MayHave a h = (
    ground arith,
    ground arith,
    ground arith,
    available-Lasts a h,
    ground arith,
    ground arith,
    ground arith,
    ground arith,
    ground arith,
    available-Pays a h,
  )

  left-quota_remaining : (a : Account) → quota_remaining r today a ≡ left_of unescape today now r a
  unfolding synced_remaining
  left-quota_remaining a = ground arith

  used-ledger_of : (a : Account) → (ledger_of r a).used ≡ used_of unescape today now r a
  used-ledger_of a = ground arith

  rank-favours :
      (a : Account)
      → source_priority r a
        ≡ (if favours unescape today now r r.selection_mode a.account_source then 0 else 1)
  rank-favours a = ground arith

  is_before-before :
      (a b : Account)
      → is_before r today a b
        ≡ before
            (if favours unescape today now r r.selection_mode a.account_source then 0 else 1)
            (left_of unescape today now r a)
            (used_of unescape today now r a)
            a.last_used_at
            (if favours unescape today now r r.selection_mode b.account_source then 0 else 1)
            (left_of unescape today now r b)
            (used_of unescape today now r b)
            b.last_used_at
  unfolding is_before
  is_before-before a b =
      rw
        (
          rank-favours a,
          rank-favours b,
          left-quota_remaining a,
          left-quota_remaining b,
          used-ledger_of a,
          used-ledger_of b,
        )
        refl

  pub before-Precedes :
      (a b : Account) → is_before r today a b ≡ true → Precedes unescape today now r a b
  before-Precedes a b h = before-Earlier _ _ _ _ _ _ _ _ (sym (is_before-before a b) ∙ h)

  pub Precedes-before :
      (a b : Account) → Precedes unescape today now r a b → is_before r today a b ≡ true
  Precedes-before a b h = is_before-before a b ∙ Earlier-before _ _ _ _ _ _ _ _ h
