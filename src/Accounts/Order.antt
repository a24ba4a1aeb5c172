-- ===== src/Accounts/Order.antt =====
-- app/accounts.py, `_select_account`: the order in which accounts are preferred, and its sort.
use api.Base.{
  ℕ, Bool, true, false, Option, none, some, List, [], ◌∷◌, String, ◌≡◌, refl, arith, if◌then◌else◌,
  Bool-cases, inl, inr,
}
use mathlib.Core.List.{Mem, mem-cons_self, mem-cons_of_mem}
use api.Accounts.Account.{Account}
use api.Accounts.Select.{
  Request, before, is_before, insert_account, sort_accounts, first, is_available, enabled_accounts,
}

before_asym :
    (s l u t s1 l1 u1 t1 : ℕ)
    → before s l u t s1 l1 u1 t1 ≡ true
    → before s1 l1 u1 t1 s l u t ≡ false
unfolding before
before_asym s l u t s1 l1 u1 t1 h = ground arith

before_trans :
    (s l u t s1 l1 u1 t1 s2 l2 u2 t2 : ℕ)
    → before s1 l1 u1 t1 s l u t ≡ false
    → before s2 l2 u2 t2 s1 l1 u1 t1 ≡ false
    → before s2 l2 u2 t2 s l u t ≡ false
unfolding before
before_trans s l u t s1 l1 u1 t1 s2 l2 u2 t2 h k = ground arith

abbrev pub AllIn : (Account → Type 0) → List Account → Type 0
AllIn P [] = Unit
AllIn P (a ∷ l) = P a × AllIn P l

pub if-AllIn :
    (P : Account → Type 0) (b : Bool) (x y : List Account)
    → (b ≡ true → AllIn P x)
    → (b ≡ false → AllIn P y)
    → AllIn P (if b then x else y)
if-AllIn P true x y f g = f refl
if-AllIn P false x y f g = g refl

weaken-AllIn :
    (a : Account) (l k : List Account) → AllIn (λ b. Mem b l) k → AllIn (λ b. Mem b (a ∷ l)) k
weaken-AllIn a l [] h = tt
weaken-AllIn a l (b ∷ k) h = (mem-cons_of_mem a h.0, weaken-AllIn a l k h.1)

pub all-Mem : (l : List Account) → AllIn (λ a. Mem a l) l
all-Mem [] = tt
all-Mem (a ∷ l) = (mem-cons_self, weaken-AllIn a l l (all-Mem l))

module _ (r : Request) (today : ℕ) where
  is_before_asym : (a b : Account) → is_before r today a b ≡ true → is_before r today b a ≡ false
  unfolding is_before
  is_before_asym a b = before_asym _ _ _ _ _ _ _ _

  is_before_trans :
      (a b c : Account)
      → is_before r today b a ≡ false
      → is_before r today c b ≡ false
      → is_before r today c a ≡ false
  unfolding is_before
  is_before_trans a b c = before_trans _ _ _ _ _ _ _ _ _ _ _ _

  is_before_irrefl : (a : Account) → is_before r today a a ≡ false
  is_before_irrefl a =
      elim (Bool-cases (is_before r today a a)) as (λ _. is_before r today a a ≡ false) [
        | inl h ↦ is_before_asym a a h
        | inr h ↦ h
      ]

  -- No account of the list stands before `a`.
  abbrev pub NoneBefore : Account → List Account → Type 0
  NoneBefore a [] = Unit
  NoneBefore a (b ∷ rest) = (is_before r today b a ≡ false) × NoneBefore a rest

  before-NoneBefore :
      (a b : Account) (l : List Account)
      → is_before r today b a ≡ false
      → NoneBefore b l
      → NoneBefore a l
  before-NoneBefore a b [] k h = tt
  before-NoneBefore a b (c ∷ l) k h = (is_before_trans a b c k h.0, before-NoneBefore a b l k h.1)

  empty-NoneBefore : (a : Account) (l : List Account) → l ≡ [] → NoneBefore a l
  empty-NoneBefore a [] e = tt
  empty-NoneBefore a (b ∷ l) e = absurd (ground (arith, e))

  module _ (P : Account → Type 0) where
    -- `a` has the property and no account of the list stands before it.
    abbrev pub First : Option Account → List Account → Type 0
    First none l = l ≡ []
    First (some a) l = P a × NoneBefore a l

    if-First :
        (b : Bool) (x y l : List Account)
        → (b ≡ true → First (first x) l)
        → (b ≡ false → First (first y) l)
        → First (first (if b then x else y)) l
    if-First true x y l f g = f refl
    if-First false x y l f g = g refl

    insert-First :
        (a : Account) (sorted l : List Account)
        → P a
        → First (first sorted) l
        → First (first (insert_account r today a sorted)) (a ∷ l)
    unfolding insert_account
    insert-First a [] l p h = (p, (is_before_irrefl a, empty-NoneBefore a l h))
    insert-First a (b ∷ sorted) l p h =
        if-First (is_before r today b a) (b ∷ insert_account r today a sorted) (a ∷ b ∷ sorted)
          (a ∷ l) (λ e. (h.0, (is_before_asym b a e, h.1)))
          (λ e. (p, (is_before_irrefl a, before-NoneBefore a b l e h.1)))

    pub sort-First : (l : List Account) → AllIn P l → First (first (sort_accounts r today l)) l
    unfolding sort_accounts
    sort-First [] h = refl
    sort-First (a ∷ l) h = insert-First a (sort_accounts r today l) l h.0 (sort-First l h.1)

module _ (unescape : String → String) (today now : ℕ) (r : Request) where
  pub enabled-AllIn :
      (P : Account → Type 0) (accounts : List Account)
      → AllIn P accounts
      → AllIn
          (λ a. P a × (is_available unescape today now r a ≡ true))
          (enabled_accounts unescape today now r accounts)
  unfolding enabled_accounts
  enabled-AllIn P [] h = tt
  enabled-AllIn P (a ∷ accounts) h =
      if-AllIn (λ a. P a × (is_available unescape today now r a ≡ true))
        (is_available unescape today now r a) (a ∷ enabled_accounts unescape today now r accounts) _
        (λ e. ((h.0, e), enabled-AllIn P accounts h.1)) (λ _. enabled-AllIn P accounts h.1)
