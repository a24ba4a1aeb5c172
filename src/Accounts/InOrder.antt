-- ===== src/Accounts/InOrder.antt =====
-- app/accounts.py: accounts whose ledgers are in order, and changes of a list of them.
use api.Base.{
  Bool, true, false, Option, none, some, List, [], ◌∷◌, String, str_eq, map, if◌then◌else◌,
}
use api.Accounts.Ledger.{Ledger}
use api.Accounts.Account.{Account}
use api.Accounts.Claim.{or_same, update_account}
use api.Accounts.Quota.{changed_accounts}
use api.Accounts.Consistency.{Consistent}

-- Both ledgers of an account.
abbrev pub InOrder : Account → Type 0
InOrder a = Consistent a.quota × Consistent a.studio

abbrev pub AllInOrder : List Account → Type 0
AllInOrder [] = Unit
AllInOrder (a ∷ rest) = InOrder a × AllInOrder rest

abbrev pub OneIn : Option Account → Type 0
OneIn none = Unit
OneIn (some a) = InOrder a

abbrev pub ListIn : Option (List Account) → Type 0
ListIn none = Unit
ListIn (some accounts) = AllInOrder accounts

pub if-InOrder : (b : Bool) (x y : Account) → InOrder x → InOrder y → InOrder (if b then x else y)
if-InOrder true x y h k = h
if-InOrder false x y h k = k

pub if-OneIn : (b : Bool) (x y : Option Account) → OneIn x → OneIn y → OneIn (if b then x else y)
if-OneIn true x y h k = h
if-OneIn false x y h k = k

pub if-ListIn :
    (b : Bool) (x y : Option (List Account)) → ListIn x → ListIn y → ListIn (if b then x else y)
if-ListIn true x y h k = h
if-ListIn false x y h k = k

pub if-AllInOrder :
    (b : Bool) (x y : List Account) → AllInOrder x → AllInOrder y → AllInOrder (if b then x else y)
if-AllInOrder true x y h k = h
if-AllInOrder false x y h k = k

pub if-Ledger :
    (b : Bool) (x y : Ledger) → Consistent x → Consistent y → Consistent (if b then x else y)
if-Ledger true x y h k = h
if-Ledger false x y h k = k

pub if-ListBoth :
    (b : Bool) (x y : Bool × List Account)
    → AllInOrder x.1
    → AllInOrder y.1
    → AllInOrder (if b then x else y).1
if-ListBoth true x y h k = h
if-ListBoth false x y h k = k

pub cons-ListIn :
    (a : Account) (o : Option (List Account))
    → InOrder a
    → ListIn o
    → ListIn (elim o as (λ _. Option (List Account)) [ none ↦ none | some rest ↦ some (a ∷ rest) ])
cons-ListIn a none h k = tt
cons-ListIn a (some rest) h k = (h, k)

pub head-ListIn :
    (o : Option Account) (rest : List Account)
    → OneIn o
    → AllInOrder rest
    → ListIn (elim o as (λ _. Option (List Account)) [ none ↦ none | some b ↦ some (b ∷ rest) ])
head-ListIn none rest h k = tt
head-ListIn (some b) rest h k = (h, k)

pub update-ListIn :
    (id : String) (change : Account → Option Account) (accounts : List Account)
    → ((a : Account) → InOrder a → OneIn (change a))
    → AllInOrder accounts
    → ListIn (update_account id change accounts)
unfolding update_account
update-ListIn id change [] keep h = tt
update-ListIn id change (a ∷ rest) keep h =
    if-ListIn (str_eq a.id id) _ _ (head-ListIn (change a) rest (keep a h.0) h.1)
      (cons-ListIn a (update_account id change rest) h.0 (update-ListIn id change rest keep h.1))

pub or_same-AllInOrder :
    (o : Option (List Account)) (accounts : List Account)
    → ListIn o
    → AllInOrder accounts
    → AllInOrder (or_same o accounts)
or_same-AllInOrder none accounts h k = k
or_same-AllInOrder (some changed) accounts h k = h

pub changed-AllInOrder :
    (o : Option (List Account)) (accounts : List Account)
    → ListIn o
    → AllInOrder accounts
    → AllInOrder (changed_accounts o accounts).1
changed-AllInOrder none accounts h k = k
changed-AllInOrder (some changed) accounts h k = h

pub map-AllInOrder :
    (change : Account → Account) (accounts : List Account)
    → ((a : Account) → InOrder a → InOrder (change a))
    → AllInOrder accounts
    → AllInOrder (map change accounts)
map-AllInOrder change [] keep h = tt
map-AllInOrder change (a ∷ rest) keep h = (keep a h.0, map-AllInOrder change rest keep h.1)
