-- ===== src/Invitations/Laws.antt =====
-- app/invitation_codes.py: the uses of codes, and the codes that are left, over a sequence of calls.
use api.Base.{
  ℕ, Bool, true, false, ◌&&◌, Option, none, some, List, [], ◌∷◌, String, str_eq, leb, ◌≡◌, refl,
  arith, if◌then◌else◌, length,
}
use api.Base.Dict.{Dict, lookup, insert}
use api.Base.Result.{Result, ok, err}
use api.Base.Text.{str_take, strip}
use api.Invitations.{
  Code, Invitations, Error, Draw, add_codes, generate_codes, bad_count, bad_length, last_code,
  use_code, complete_reservation, take_code, delete_code, note_code, update_code_note,
}
use api.Invitations.Codes.{
  Kept, use-Within, insert-AllWithin, insert-length, lookup-Within, Made, add-Made, note-Made, Left,
  take-Left,
}

pub data Event : Type 0 where
  generate : (count code_length : ℕ) → (note : String) → List Draw → Event
  complete : (key user_id username : String) → Event
  delete : (code_id : String) → Event
  update_note : (code_id note : String) → Event

-- The data after a call; one that raises, or goes on, leaves it.
abbrev after_generate : Option (Result Error Invitations) → Invitations → Invitations
after_generate none d = d
after_generate (some (err e)) d = d
after_generate (some (ok new)) d = new

abbrev after_delete : Result Error (Option Code × Invitations) → Invitations → Invitations
after_delete (err e) d = d
after_delete (ok (c, new)) d = new

module _ (digest : String → String) where
  unfoldable pub step : Event → ℕ → Invitations → Invitations
  step (generate count code_length note draws) now d =
      after_generate (generate_codes digest count code_length note now draws d) d
  step (complete key user_id username) now d = complete_reservation key user_id username now d
  step (delete code_id) now d = after_delete (delete_code code_id now d) d
  step (update_note code_id note) now d = update_code_note code_id note now d

  unfoldable pub run : List (Event × ℕ) → Invitations → Invitations
  run [] d = d
  run ((e, now) ∷ events) d = run events (step e now d)

if-Kept : (b : Bool) (x y : Invitations) → Kept x → Kept y → Kept (if b then x else y)
if-Kept true x y h k = h
if-Kept false x y h k = k

generated-Kept :
    (d : Invitations) (now : ℕ) (b c : Bool) (o : Option (Dict Code))
    → Kept d
    → Made (length d.codes) o
    → Kept (
        after_generate
          (if b
            then some (err bad_count)
            else if c
            then some (err bad_length)
            else elim o as (λ _. Option (Result Error Invitations)) [
              | none ↦ none
              | some codes ↦ some (ok (record d { codes = codes; updated_at = now }))
            ])
          d)
generated-Kept d now true c o k m = k
generated-Kept d now false true o k m = k
generated-Kept d now false false none k m = k
generated-Kept d now false false (some codes) k m = (m.0, omega (arith, m.1, k.1), k.2)

completed-Kept :
    (d : Invitations) (key user_id username : String) (now : ℕ) (o : Option Code)
    → lookup key d.codes ≡ o
    → Kept d
    → Kept (elim o as (λ _. Invitations) [
      | none ↦ d
      | some c ↦ record d {
        codes = insert key (use_code user_id username now c) d.codes;
        updated_at = now;
      }
    ])
completed-Kept d key user_id username now none e k = k
completed-Kept d key user_id username now (some c) e k =
    let used = use_code user_id username now c in
    (
      insert-AllWithin key used d.codes
          (use-Within user_id username now c (lookup-Within key c d.codes k.0 e)) k.0,
      omega (arith, insert-length key used d.codes, k.1),
      k.2,
    )

removed-Kept :
    (d : Invitations) (now : ℕ) (b : Bool) (o : Option (Code × Dict Code))
    → Kept d
    → Left d.codes o
    → Kept (
        after_delete
          (if b then ok (none, d) else elim o as (λ _. Result Error (Option Code × Invitations)) [
            | none ↦ ok (none, d)
            | some (found, rest) ↦
                if d.required && leb (length d.codes) 1
                then err last_code
                else ok (some found, record d { codes = rest; updated_at = now })
          ])
          d)
removed-Kept d now true o k l = k
removed-Kept d now false none k l = k
removed-Kept d now false (some (found, rest)) k l =
    guarded d now found rest k l (d.required && leb (length d.codes) 1) refl
  where
    guarded :
        (d : Invitations) (now : ℕ) (found : Code) (rest : Dict Code)
        → Kept d
        → Left d.codes (some (found, rest))
        → (b : Bool) → (d.required && leb (length d.codes) 1) ≡ b
        → Kept (
            after_delete
              (if b
                then err last_code
                else ok (some found, record d { codes = rest; updated_at = now }))
              d)
    guarded d now found rest k l true e = k
    guarded d now found rest k l false e = (l.0, ground (arith, e, k.2, l.1), k.2)

noted-Kept :
    (d : Invitations) (now : ℕ) (b : Bool) (o : Option (Dict Code))
    → Kept d
    → Made (length d.codes) o
    → Kept (
        if b then d else elim o as (λ _. Invitations) [
          | none ↦ d
          | some codes ↦ record d { codes = codes; updated_at = now }
        ])
noted-Kept d now true o k m = k
noted-Kept d now false none k m = k
noted-Kept d now false (some codes) k m = (m.0, omega (arith, m.1, k.1), k.2)

module _ (digest : String → String) where
  step-Kept : (e : Event) (now : ℕ) (d : Invitations) → Kept d → Kept (step digest e now d)
  unfolding step generate_codes complete_reservation delete_code update_code_note
  step-Kept (generate count code_length note draws) now d k =
      generated-Kept d now _ _
        (add_codes digest (str_take 120 (strip note)) now count draws d.codes) k
        (add-Made digest (str_take 120 (strip note)) now count draws d.codes k.0)
  step-Kept (complete key user_id username) now d k =
      completed-Kept d key user_id username now (lookup key d.codes) refl k
  step-Kept (delete code_id) now d k =
      removed-Kept d now (str_eq (strip code_id) "") (take_code (strip code_id) d.codes) k
        (take-Left (strip code_id) d.codes k.0)
  step-Kept (update_note code_id note) now d k =
      noted-Kept d now (str_eq (strip code_id) "")
        (note_code (strip code_id) (str_take 120 (strip note)) d.codes) k
        (note-Made (strip code_id) (str_take 120 (strip note)) d.codes k.0)

  -- While codes are required, over any sequence of calls that begins with a code, one is left, and the
  -- history of every code holds at most a hundred uses and no more than were counted.
  pub run-Kept : (events : List (Event × ℕ)) (d : Invitations) → Kept d → Kept (run digest events d)
  unfolding run
  run-Kept [] d k = k
  run-Kept ((e, now) ∷ events) d k = run-Kept events (step digest e now d) (step-Kept e now d k)
