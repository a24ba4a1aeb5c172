-- ===== src/Invitations/Codes.antt =====
-- app/invitation_codes.py: what each call does to the codes and to their uses.
use api.Base.{
  ℕ, zero, suc, ◌+◌, ◌-◌, ◌≤◌, Bool, true, false, Option, none, some, List, [], ◌∷◌, ◌++◌, String,
  str_eq, ◌≡◌, arith, if◌then◌else◌, length, length-append, All, Bool-cases, inl, inr, subst,
  length-drop,
}
use api.Base.Dict.{Dict, lookup, contains, insert}
use api.Base.Text.{str_take}
use api.Invitations.{
  Use, Code, Invitations, Draw, max_use_history, new_code, add_codes, use_code, take_code,
  note_code,
}

-- The history of a code is bounded and holds no more uses than were counted.
abbrev pub Within : Code → Type 0
Within c = (length c.uses ≤ max_use_history) × (length c.uses ≤ c.use_count)

abbrev pub AllWithin : Dict Code → Type 0
AllWithin codes = All (λ entry. Within entry.1) codes

-- Every history is in order, and a code is left.
abbrev pub Kept : Invitations → Type 0
Kept d = AllWithin d.codes × (1 ≤ length d.codes) × (d.required ≡ true)

pub use-Within :
    (user_id username : String) (now : ℕ) (c : Code)
    → Within c
    → Within (use_code user_id username now c)
unfolding use_code
use-Within user_id username now c h =
    let use_of : Use = record {
      used_at = now;
      user_id = user_id;
      username = str_take 80 username;
    } in
    let all = c.uses ++ use_of ∷ [] in
    let grown = length-append c.uses (use_of ∷ []) in
    let kept = length-drop (length all - max_use_history) all in
    (ground (arith, kept), ground (arith, grown, kept, h.1))

pub insert-AllWithin :
    (key : String) (c : Code) (codes : Dict Code)
    → Within c
    → AllWithin codes
    → AllWithin (insert key c codes)
unfolding insert
insert-AllWithin key c [] w h = (w, tt)
insert-AllWithin key c ((k, e) ∷ codes) w h =
    if-AllWithin (str_eq k key) ((key, c) ∷ codes) ((k, e) ∷ insert key c codes) (w, h.1)
      (h.0, insert-AllWithin key c codes w h.1)
  where
    if-AllWithin :
        (b : Bool) (x y : Dict Code) → AllWithin x → AllWithin y → AllWithin (if b then x else y)
    if-AllWithin true x y p q = p
    if-AllWithin false x y p q = q

pub insert-length :
    (key : String) (c : Code) (codes : Dict Code) → length codes ≤ length (insert key c codes)
unfolding insert
insert-length key c [] = omega arith
insert-length key c ((k, e) ∷ codes) = ground (arith, insert-length key c codes)

pub lookup-Within :
    (key : String) (c : Code) (codes : Dict Code)
    → AllWithin codes
    → lookup key codes ≡ some c
    → Within c
unfolding lookup
lookup-Within key c [] h e = absurd (ground (arith, e))
lookup-Within key c ((k, d) ∷ codes) h e = elim (Bool-cases (str_eq k key)) as (λ _. Within c) [
  | inl s ↦ let same : d ≡ c = ground (arith, e, s) in subst Within same h.0
  | inr s ↦ lookup-Within key c codes h.1 (ground (arith, e, s))
]

-- The codes that come out, if any do, are in order and as many as `least` says.
abbrev pub Made : ℕ → Option (Dict Code) → Type 0
Made least none = Unit
Made least (some codes) = AllWithin codes × (least ≤ length codes)

pub if-Made :
    (least : ℕ) (b : Bool) (x y : Option (Dict Code))
    → Made least x
    → Made least y
    → Made least (if b then x else y)
if-Made least true x y h k = h
if-Made least false x y h k = k

pub weaken-Made :
    (least more : ℕ) (o : Option (Dict Code)) → least ≤ more → Made more o → Made least o
weaken-Made least more none n h = tt
weaken-Made least more (some codes) n h = (h.0, omega (arith, h.1, n))

pub add-Made :
    (digest : String → String) (note : String) (now count : ℕ) (draws : List Draw)
    (codes : Dict Code)
    → AllWithin codes
    → Made (length codes) (add_codes digest note now count draws codes)
unfolding add_codes
add-Made digest note now zero draws codes h = (h, omega arith)
add-Made digest note now (suc count) [] codes h = tt
add-Made digest note now (suc count) (draw ∷ draws) codes h =
    let c = new_code draw note now in
    let more = insert (digest draw.text) c codes in
    if-Made (length codes) (contains (digest draw.text) codes) _ _
      (add-Made digest note now (suc count) draws codes h)
      (weaken-Made (length codes) (length more) (add_codes digest note now count draws more)
        (insert-length (digest draw.text) c codes)
        (add-Made digest note now count draws more
          (insert-AllWithin (digest draw.text) c codes (omega arith, omega arith) h)))

pub note-cons :
    (key : String) (c : Code) (least : ℕ) (o : Option (Dict Code))
    → Within c
    → Made least o
    → Made
        (suc least)
        (elim o as (λ _. Option (Dict Code)) [ none ↦ none | some rest ↦ some ((key, c) ∷ rest) ])
note-cons key c least none w h = tt
note-cons key c least (some rest) w h = ((w, h.0), omega (arith, h.1))

pub note-Made :
    (id note : String) (codes : Dict Code)
    → AllWithin codes
    → Made (length codes) (note_code id note codes)
unfolding note_code
note-Made id note [] h = tt
note-Made id note ((key, c) ∷ codes) h =
    if-Made (suc (length codes)) (str_eq c.id id) (some ((key, record c { note = note }) ∷ codes)) _
      ((h.0, h.1), omega arith)
      (note-cons key c (length codes) (note_code id note codes) h.0 (note-Made id note codes h.1))

-- What is left once a code was taken.
abbrev pub Left : Dict Code → Option (Code × Dict Code) → Type 0
Left codes none = Unit
Left codes (some (c, rest)) = AllWithin rest × (length codes ≡ length rest + 1)

pub if-Left :
    (codes : Dict Code) (b : Bool) (x y : Option (Code × Dict Code))
    → Left codes x
    → Left codes y
    → Left codes (if b then x else y)
if-Left codes true x y h k = h
if-Left codes false x y h k = k

pub take-cons :
    (key : String) (c : Code) (codes : Dict Code) (o : Option (Code × Dict Code))
    → Within c
    → Left codes o
    → Left ((key, c) ∷ codes) (elim o as (λ _. Option (Code × Dict Code)) [
      | none ↦ none
      | some (found, rest) ↦ some (found, (key, c) ∷ rest)
    ])
take-cons key c codes none w h = tt
take-cons key c codes (some (found, rest)) w h = ((w, h.0), omega (arith, h.1))

pub take-Left :
    (id : String) (codes : Dict Code) → AllWithin codes → Left codes (take_code id codes)
unfolding take_code
take-Left id [] h = tt
take-Left id ((key, c) ∷ codes) h =
    if-Left ((key, c) ∷ codes) (str_eq c.id id) (some (c, codes)) _ (h.1, omega arith)
      (take-cons key c codes (take_code id codes) h.0 (take-Left id codes h.1))
