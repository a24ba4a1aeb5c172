-- ===== src/Invitations.antt =====
-- app/invitation_codes.py: codes that a registration asks for, each of which may be used again. `digest`
-- is the hash of a code and `normalize` its letters and digits in capitals. The records are those that
-- `_normalize_data` leaves as they are. The rows that `generate_codes` and `update_code_note` answer with
-- are left out.
use api.Base.{
  ℕ, zero, suc, ◌+◌, ◌-◌, Bool, true, false, ◌&&◌, ◌||◌, not, Option, none, some, List, [], ◌∷◌,
  ◌++◌, String, str_eq, ltb, leb, if◌then◌else◌, length,
}
use api.Base.Dict.{Dict, lookup, contains, insert}
use api.Base.Result.{Result, ok, err}
use api.Base.Text.{str_take, strip}
use api.Tasks.Meta.{last_n}
mod Codes
mod Laws
mod Tests

abbrev pub max_use_history : ℕ
max_use_history = 100

pub record Use : Type 0 where
  pub used_at : ℕ
  pub user_id : String
  pub username : String

pub record Code : Type 0 where
  pub id : String
  pub code : String
  pub created_at : ℕ
  pub note : String
  pub use_count : ℕ
  pub last_used_at : ℕ
  pub last_used_by : String
  pub last_used_username : String
  pub uses : List Use

pub record Invitations : Type 0 where
  pub required : Bool
  pub codes : Dict Code
  pub updated_at : ℕ

pub data Error : Type 0 where
  bad_count bad_length bad_code last_code : Error

unfoldable pub set_registration_required : Bool → ℕ → Invitations → Invitations
set_registration_required required now d = record d { required = required; updated_at = now }

-- A code that is drawn, with the identifier that is drawn for it.
pub record Draw : Type 0 where
  pub text : String
  pub fresh_id : String

abbrev pub new_code : Draw → String → ℕ → Code
new_code draw note now = record {
  id = draw.fresh_id;
  code = draw.text;
  created_at = now;
  note = note;
  use_count = 0;
  last_used_at = 0;
  last_used_by = "";
  last_used_username = "";
  uses = [];
}

-- The loop over the new codes, in which a code that is there is drawn again; `none` where the draws
-- are used up.
unfoldable pub add_codes :
    (String → String)
    → (note : String) → ℕ
    → (count : ℕ) → List Draw
    → Dict Code
    → Option (Dict Code)
add_codes digest note now zero draws codes = some codes
add_codes digest note now (suc count) [] codes = none
add_codes digest note now (suc count) (draw ∷ draws) codes =
    let again = add_codes digest note now (suc count) draws codes in
    let next =
      add_codes digest note now count draws
        (insert (digest draw.text) (new_code draw note now) codes) in
    if contains (digest draw.text) codes then again else next

-- The length is that of the draws. The outer `none` is a loop that goes on.
unfoldable pub generate_codes :
    (String → String)
    → (count length : ℕ) → (note : String) → ℕ
    → List Draw
    → Invitations
    → Option (Result Error Invitations)
generate_codes digest count length note now draws d =
    let added = add_codes digest (str_take 120 (strip note)) now count draws d.codes in
    if ltb count 1 || ltb 200 count
    then some (err bad_count)
    else if ltb length 4 || ltb 32 length
    then some (err bad_length)
    else elim added as (λ _. Option (Result Error Invitations)) [
      | none ↦ none
      | some codes ↦ some (ok (record d { codes = codes; updated_at = now }))
    ]

-- The key of the code, with which the registration is completed; `code_length` is the length of the
-- normalized code.
unfoldable pub reserve_code :
    (normalize digest : String → String)
    → (code_length : String → ℕ) → String
    → Invitations
    → Result Error String
reserve_code normalize digest code_length code d =
    let key = digest (normalize code) in
    let known : Result Error String = if contains key d.codes then ok key else err bad_code in
    if ltb (code_length (normalize code)) 4 then err bad_code else known

unfoldable pub use_code : (user_id username : String) → ℕ → Code → Code
use_code user_id username now c =
    let use_of : Use = record {
      used_at = now;
      user_id = user_id;
      username = str_take 80 username;
    } in
    record c {
      use_count = c.use_count + 1;
      last_used_at = now;
      last_used_by = user_id;
      last_used_username = str_take 80 username;
      uses = last_n max_use_history (c.uses ++ use_of ∷ []);
    }

-- A key that is not there, as after a deletion, changes nothing.
unfoldable pub complete_reservation :
    (key user_id username : String) → ℕ → Invitations → Invitations
complete_reservation key user_id username now d = elim (lookup key d.codes) as (λ _. Invitations) [
  | none ↦ d
  | some c ↦ record d {
    codes = insert key (use_code user_id username now c) d.codes;
    updated_at = now;
  }
]

-- The first record with the identifier, and the others.
unfoldable pub take_code : String → Dict Code → Option (Code × Dict Code)
take_code id [] = none
take_code id ((key, c) ∷ codes) =
    let later = elim (take_code id codes) as (λ _. Option (Code × Dict Code)) [
      | none ↦ none
      | some (found, rest) ↦ some (found, (key, c) ∷ rest)
    ] in
    if str_eq c.id id then some (c, codes) else later

unfoldable pub delete_code : String → ℕ → Invitations → Result Error (Option Code × Invitations)
delete_code code_id now d =
    let id = strip code_id in
    let removed = elim (take_code id d.codes) as (λ _. Result Error (Option Code × Invitations)) [
      | none ↦ ok (none, d)
      | some (found, rest) ↦
          if d.required && leb (length d.codes) 1
          then err last_code
          else ok (some found, record d { codes = rest; updated_at = now })
    ] in
    if str_eq id "" then ok (none, d) else removed

unfoldable pub note_code : (id note : String) → Dict Code → Option (Dict Code)
note_code id note [] = none
note_code id note ((key, c) ∷ codes) =
    let later = elim (note_code id note codes) as (λ _. Option (Dict Code)) [
      | none ↦ none
      | some rest ↦ some ((key, c) ∷ rest)
    ] in
    if str_eq c.id id then some ((key, record c { note = note }) ∷ codes) else later

unfoldable pub update_code_note : (code_id note : String) → ℕ → Invitations → Invitations
update_code_note code_id note now d =
    let noted =
      elim (note_code (strip code_id) (str_take 120 (strip note)) d.codes) as (λ _. Invitations) [
        | none ↦ d
        | some codes ↦ record d { codes = codes; updated_at = now }
      ] in
    if str_eq (strip code_id) "" then d else noted
