-- ===== src/Invitations/Tests.antt =====
-- app/invitation_codes.py: a few codes and an instance of the theorem.
use api.Base.{ℕ, true, some, List, [], ◌∷◌, String, ◌≡◌, refl, arith}
use api.Base.Dict.{contains, insert}
use api.Base.Result.{ok, err}
use api.Base.Text.{strip}
use Prim.Native.String.{◌++◌ as str_append}
use api.Invitations.{
  Invitations, Draw, last_code, new_code, add_codes, generate_codes, take_code, delete_code,
}
use api.Invitations.Codes.{Kept}
use api.Invitations.Laws.{Event, generate, complete, delete, update_note, run, run-Kept}

abbrev hash : String → String
hash s = str_append "#" s

abbrev first_draw : Draw
first_draw = record { text = "ABCDEFG"; fresh_id = "i1" }

abbrev second_draw : Draw
second_draw = record { text = "BCDEFGH"; fresh_id = "i2" }

abbrev one_code : Invitations
one_code = record {
  required = true;
  codes = ("#ABCDEFG", new_code first_draw "" 1) ∷ [];
  updated_at = 1;
}

unfoldable program : Unit {0}
unfolding add_codes generate_codes contains insert delete_code take_code strip
program = tt

last_stays : delete_code "i1" 5 one_code ≡ err last_code
unfolding program
last_stays = refl

-- A draw of a code that is there is drawn again.
drawn_again :
    generate_codes hash 1 7 "" 5 (first_draw ∷ second_draw ∷ []) one_code
    ≡ some (
        ok (record one_code {
          codes =
              ("#ABCDEFG", new_code first_draw "" 1) ∷ ("#BCDEFGH", new_code second_draw "" 5) ∷ [];
          updated_at = 5;
        }))
unfolding program
drawn_again = refl

abbrev events : List (Event × ℕ)
events =
    (generate 1 7 "new" (first_draw ∷ second_draw ∷ []), 5)
    ∷ (complete "#ABCDEFG" "u1" "ann", 6)
    ∷ (delete "i1", 7)
    ∷ (update_note "i2" "last", 8)
    ∷ (delete "i2", 9)
    ∷ []

run-Kept_example : Kept (run hash events one_code)
run-Kept_example =
    run-Kept hash events one_code (((omega arith, omega arith), tt), omega arith, refl)
