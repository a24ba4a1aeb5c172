-- ===== src/Accounts/Best.antt =====
-- app/accounts.py, `_select_account`: the account that comes first in the order of preference.
use api.Base.{
  ℕ, Bool, true, false, Option, none, some, List, [], ◌∷◌, String, ◌≡◌, refl, arith, if◌then◌else◌,
  Bool-cases, inl, inr, ◌⊎◌, All,
}
use mathlib.Core.List.{Mem}
use api.Accounts.Order.{NoneBefore, First, sort-First, enabled-AllIn, all-Mem}
use api.Accounts.Account.{Account}
use api.Accounts.Preference.{MayHave, Precedes}
use api.Accounts.Preference.Laws.{MayHave-available, available-MayHave, Precedes-before}
use api.Accounts.Select.{
  Request, is_before, sort_accounts, first, is_random, is_available, enabled_accounts,
  select_account,
}

module _ (r : Request) (today : ℕ) where
  module _ (unescape : String → String) (now : ℕ) where
    abbrev pub Fits : Account → Type 0
    Fits = MayHave unescape today now r

    -- No account of the list that may have the task is to be preferred to `a`.
    abbrev pub NoneBetter : Account → List Account → Type 0
    NoneBetter a accounts = All (λ b. (¬ Fits b) ⊎ (¬ Precedes unescape today now r b a)) accounts

    -- What is asked of the account that is selected, or of there being none.
    abbrev pub Preferred : Option Account → List Account → Type 0
    Preferred none accounts = All (λ b. ¬ Fits b) accounts
    Preferred (some a) accounts = Mem a accounts × Fits a × NoneBetter a accounts

    unfit : (a : Account) → is_available unescape today now r a ≡ false → ¬ Fits a
    unfit a h fits = absurd (ground (arith, h, MayHave-available unescape today now r a fits))

    not_before :
        (a b : Account) → is_before r today b a ≡ false → ¬ Precedes unescape today now r b a
    not_before a b h p = absurd (ground (arith, h, Precedes-before unescape today now r b a p))

    if-NoneBetter :
        (a b : Account) (l accounts : List Account) (c : Bool)
        → is_available unescape today now r b ≡ c
        → (NoneBefore r today a l → NoneBetter a accounts)
        → NoneBefore r today a (if c then b ∷ l else l)
        → NoneBetter a (b ∷ accounts)
    if-NoneBetter a b l accounts true e f h = (inr (not_before a b h.0), f h.1)
    if-NoneBetter a b l accounts false e f h = (inl (unfit b e), f h)

    enabled-NoneBetter :
        (a : Account) (accounts : List Account)
        → NoneBefore r today a (enabled_accounts unescape today now r accounts)
        → NoneBetter a accounts
    unfolding enabled_accounts
    enabled-NoneBetter a [] h = tt
    enabled-NoneBetter a (b ∷ accounts) h =
        if-NoneBetter a b (enabled_accounts unescape today now r accounts) accounts
          (is_available unescape today now r b) refl (enabled-NoneBetter a accounts) h

    enabled_none :
        (accounts : List Account)
        → enabled_accounts unescape today now r accounts ≡ []
        → All (λ b. ¬ Fits b) accounts
    unfolding enabled_accounts
    enabled_none [] h = tt
    enabled_none (b ∷ accounts) h =
        elim (Bool-cases (is_available unescape today now r b))
          as (λ _. All (λ b. ¬ Fits b) (b ∷ accounts)) [
            | inl e ↦ absurd (ground arith)
            | inr e ↦ (unfit b e, enabled_none accounts (ground arith))
          ]

    abbrev Admitted : List Account → Account → Type 0
    Admitted accounts a = Mem a accounts × (is_available unescape today now r a ≡ true)

    preferred :
        (o : Option Account) (accounts : List Account)
        → First r today (Admitted accounts) o (enabled_accounts unescape today now r accounts)
        → Preferred o accounts
    preferred none accounts h = enabled_none accounts h
    preferred (some a) accounts h =
        (h.0.0, available-MayHave unescape today now r a h.0.1, enabled-NoneBetter a accounts h.1)

    -- Outside the random mode, the selected account is one of the list that may have the task: it is
    -- enabled, normal, idle, not excluded, past its cooldown, with cookies, of the platform, for the
    -- duration, of the identifier where one is asked for, and has the quota left. No other such account
    -- is to be preferred: by the source that the mode names, then by more quota left, then by less used,
    -- then by the earlier last use. None is selected only where none may have the task.
    pub select_account-Preferred :
        (accounts : List Account)
        → is_random r.selection_mode ≡ false
        → Preferred (select_account unescape today now r accounts) accounts
    unfolding select_account
    select_account-Preferred accounts ordered =
        let enabled = enabled_accounts unescape today now r accounts in
        let found : First r today (Admitted accounts) (first (sort_accounts r today enabled))
            enabled =
          sort-First r today (Admitted accounts) enabled (
            enabled-AllIn unescape today now r (λ a. Mem a accounts) accounts (all-Mem accounts)) in
        preferred _ accounts (rw ordered found)
