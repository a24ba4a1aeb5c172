-- ===== src/Accounts/Charges.antt =====
-- app/accounts.py: lists of charges, what marking and adding one does to their units.
use api.Base.{
  ◌+◌, ◌≤◌, Bool, true, false, ◌&&◌, not, Option, none, some, List, [], ◌∷◌, ◌++◌, String, str_eq,
  ◌≡◌, refl, arith, if◌then◌else◌,
}
use api.Accounts.Ledger.{
  Charge, ChargeStatus, is_named, is_active, quota_charges, active_units, mark_charge, marked_or,
}

-- Every charge has an identifier.
abbrev pub AllNamed : List Charge → Type 0
AllNamed [] = Unit
AllNamed (c ∷ cs) = (is_named c ≡ true) × AllNamed cs

pub quota_charges-AllNamed : (cs : List Charge) → AllNamed (quota_charges cs)
unfolding quota_charges
quota_charges-AllNamed [] = tt
quota_charges-AllNamed (c ∷ cs) = ground (arith, quota_charges-AllNamed cs)

pub quota_charges_named : (cs : List Charge) → AllNamed cs → quota_charges cs ≡ cs
unfolding quota_charges
quota_charges_named [] h = refl
quota_charges_named (c ∷ cs) h = ground (arith, quota_charges_named cs h.1)

pub AllNamed-append :
    (cs : List Charge) (c : Charge) → AllNamed cs → is_named c ≡ true → AllNamed (cs ++ c ∷ [])
AllNamed-append [] c h n = (n, tt)
AllNamed-append (d ∷ cs) c h n = (h.0, AllNamed-append cs c h.1 n)

pub active-append :
    (cs : List Charge) (c : Charge)
    → active_units (cs ++ c ∷ []) ≡ active_units cs + active_units (c ∷ [])
unfolding active_units
active-append [] c = omega arith
active-append (d ∷ cs) c = ground (arith, active-append cs c)

pub quota_charges-append :
    (cs : List Charge) (c : Charge)
    → is_named c ≡ true
    → quota_charges (cs ++ c ∷ []) ≡ quota_charges cs ++ c ∷ []
unfolding quota_charges
quota_charges-append [] c n = ground arith
quota_charges-append (d ∷ cs) c n = ground (arith, quota_charges-append cs c n)

-- No charge has the identifier.
unfoldable pub is_absent : String → List Charge → Bool
is_absent id [] = true
is_absent id (c ∷ cs) = not (str_eq c.charge_id id) && is_absent id cs

pub quota_charges-absent :
    (id : String) (cs : List Charge)
    → is_absent id cs ≡ true
    → is_absent id (quota_charges cs) ≡ true
unfolding quota_charges is_absent
quota_charges-absent id [] h = refl
quota_charges-absent id (c ∷ cs) h = ground (arith, quota_charges-absent id cs)

-- All of those that came out.
abbrev pub NamedIn : Option (List Charge) → Type 0
NamedIn none = Unit
NamedIn (some cs) = AllNamed cs

if-NamedIn :
    (b : Bool) (x y : Option (List Charge)) → NamedIn x → NamedIn y → NamedIn (if b then x else y)
if-NamedIn true x y h k = h
if-NamedIn false x y h k = k

cons-NamedIn :
    (c : Charge) (o : Option (List Charge))
    → is_named c ≡ true
    → NamedIn o
    → NamedIn (elim o as (λ _. Option (List Charge)) [ none ↦ none | some rest ↦ some (c ∷ rest) ])
cons-NamedIn c none n h = tt
cons-NamedIn c (some cs) n h = (n, h)

pub marked_or-AllNamed :
    (o : Option (List Charge)) (cs : List Charge)
    → NamedIn o
    → AllNamed cs
    → AllNamed (marked_or o cs)
marked_or-AllNamed none cs h k = k
marked_or-AllNamed (some marked) cs h k = h

-- A charge in force among those that came out.
abbrev pub PositiveIn : Option (List Charge) → Type 0
PositiveIn none = Unit
PositiveIn (some cs) = 1 ≤ active_units cs

pub marked_or-positive :
    (o : Option (List Charge)) (cs : List Charge)
    → PositiveIn o
    → 1 ≤ active_units cs
    → 1 ≤ active_units (marked_or o cs)
marked_or-positive none cs h k = k
marked_or-positive (some marked) cs h k = h

if-PositiveIn :
    (b : Bool) (x y : Option (List Charge))
    → PositiveIn x
    → PositiveIn y
    → PositiveIn (if b then x else y)
if-PositiveIn true x y h k = h
if-PositiveIn false x y h k = k

cons-PositiveIn :
    (c : Charge) (o : Option (List Charge))
    → PositiveIn o
    → PositiveIn
        (elim o as (λ _. Option (List Charge)) [ none ↦ none | some rest ↦ some (c ∷ rest) ])
unfolding active_units
cons-PositiveIn c none h = tt
cons-PositiveIn c (some cs) h = ground arith

module _ (id : String) (test : ChargeStatus → Bool) (change : Charge → Charge) where
  -- The one charge with the identifier stands last.
  pub mark-last :
      (cs : List Charge) (c : Charge)
      → is_absent id cs ≡ true
      → is_named c ≡ true
      → str_eq c.charge_id id ≡ true
      → test c.status ≡ true
      → mark_charge id test change (cs ++ c ∷ []) ≡ some (cs ++ change c ∷ [])
  unfolding mark_charge is_absent
  mark-last [] c a n e t = ground arith
  mark-last (d ∷ cs) c a n e t = ground (arith, mark-last cs c (ground arith) n e t)

  pub mark-refused :
      (cs : List Charge) (c : Charge)
      → is_absent id cs ≡ true
      → test c.status ≡ false
      → mark_charge id test change (cs ++ c ∷ []) ≡ none
  unfolding mark_charge is_absent
  mark-refused [] c a t = ground arith
  mark-refused (d ∷ cs) c a t = ground (arith, mark-refused cs c (ground arith) t)

  pub mark-NamedIn :
      (cs : List Charge)
      → ((c : Charge) → (change c).charge_id ≡ c.charge_id)
      → AllNamed cs
      → NamedIn (mark_charge id test change cs)
  unfolding mark_charge
  mark-NamedIn [] keep h = tt
  mark-NamedIn (c ∷ cs) keep h =
      let kept : is_named (change c) ≡ true = rw (keep c) (h.0) in
      if-NamedIn _ (some (change c ∷ cs)) _ (kept, h.1)
        (cons-NamedIn c (mark_charge id test change cs) h.0 (mark-NamedIn cs keep h.1))

  pub mark-PositiveIn :
      (cs : List Charge)
      → ((c : Charge) → is_active (change c).status ≡ true)
      → PositiveIn (mark_charge id test change cs)
  unfolding mark_charge active_units
  mark-PositiveIn [] active = tt
  mark-PositiveIn (c ∷ cs) active =
      let here : 1 ≤ active_units (change c ∷ cs) = ground (arith, active c) in
      if-PositiveIn _ (some (change c ∷ cs)) _ here
        (cons-PositiveIn c (mark_charge id test change cs) (mark-PositiveIn cs active))
