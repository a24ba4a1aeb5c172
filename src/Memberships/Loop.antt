-- ===== src/Memberships/Loop.antt =====
-- app/users.py, `_sync_membership_state`: the `while` loop ends, and what the call leaves.
use api.Base.{
  ℕ, zero, suc, ◌≤◌, ◌<◌, Bool, true, false, ◌&&◌, ◌||◌, not, Option, none, some, List, [], ◌∷◌,
  ◌==◌, ◌≡◌, refl, arith, if◌then◌else◌, get_elem?, set, length, All, inl, inr, sym, ◌∙◌,
  Bool-cases, subst,
}
use api.Memberships.State.{
  Membership, is_active, is_expired, membership_remaining_seconds, is_eligible, first_active,
  highest, expire, choose, sync_loop,
}
use api.Memberships.View.{
  SameView, SameAll, SameAll-trans, set-SameAll, expire-SameView, count_active, Located,
  first_active-Located, Top, highest-Top,
}
use api.Memberships.State.{paused, pause_others, sync_memberships}
use api.Memberships.Sync.{count-set_inactive, Led, idle-Led, busy-Led, same-Top}

-- The loop ends on more fuel than there are active memberships, and with at most one active before
-- it, it ends as it should.
abbrev pub Ends : ℕ → List Membership → Option (List Membership) → Type 0
Ends now ms o = (ns : List Membership) × (o ≡ some ns) × (count_active ms ≤ 1 → Led now ms ns)

expired-Ends :
    (now : ℕ) (ms : List Membership) (j : ℕ) (a : Membership) (o : Option (List Membership))
    → get_elem? ms j ≡ some a
    → is_active a.status ≡ true
    → (membership_remaining_seconds now a == 0) ≡ true
    → Ends now (set ms j (expire a)) o
    → Ends now ms o
expired-Ends now ms j a o at on over (ns, e, led) =
    let counted = count-set_inactive ms j a (expire a) at on refl in
    let gone : membership_remaining_seconds now a ≡ 0 = ground (arith, over) in
    let same = set-SameAll now ms j a (expire a) at (expire-SameView now a on gone) in
    let led_after : count_active ms ≤ 1 → Led now ms ns = λ one.
      let after = led (ground (arith, counted, one)) in
      (SameAll-trans now ms (set ms j (expire a)) ns same after.0, after.1, after.2) in
    (ns, e, led_after)

if-Ends :
    (now : ℕ) (ms : List Membership) (b : Bool) (x y : Option (List Membership))
    → (b ≡ true → Ends now ms x)
    → (b ≡ false → Ends now ms y)
    → Ends now ms (if b then x else y)
if-Ends now ms true x y f g = f refl
if-Ends now ms false x y f g = g refl

loop_step :
    (fuel now : ℕ) (ms : List Membership) (o : Option (ℕ × Membership))
    → first_active ms ≡ o
    → Located ms o
    → ((j : ℕ) (a : Membership)
        → get_elem? ms j ≡ some a
        → is_active a.status ≡ true
        → Ends now (set ms j (expire a)) (sync_loop fuel now (set ms j (expire a))))
    → Ends now ms (elim o as (λ _. Option (List Membership)) [
      | none ↦ some (choose now none ms)
      | some (j, a) ↦
          if membership_remaining_seconds now a == 0
          then sync_loop fuel now (set ms j (expire a))
          else some (choose now (some (j, a)) ms)
    ])
unfolding choose
loop_step fuel now ms none f z again =
    (choose now none ms, refl, λ one. idle-Led now ms (highest now ms) f z (highest-Top now ms))
loop_step fuel now ms (some (j, a)) f l again =
    if-Ends now ms (membership_remaining_seconds now a == 0)
      (sync_loop fuel now (set ms j (expire a))) (some (choose now (some (j, a)) ms))
      (λ over. expired-Ends now ms j a _ l.0 l.1 over (again j a l.0 l.1))
      (λ left. (
        choose now (some (j, a)) ms,
        refl,
        λ one. busy-Led now ms j a f l.0 l.1 one (highest now ms) left (highest-Top now ms),
      ))

-- On more fuel than there are active memberships the loop ends; with at most one active before it, at
-- most one is active after it, every membership keeps the time that it has left, its rank and whether it
-- may run, and the active one has the highest rank of those that may run.
pub sync_loop-Ends :
    (fuel now : ℕ) (ms : List Membership)
    → count_active ms < fuel
    → Ends now ms (sync_loop fuel now ms)
unfolding sync_loop
sync_loop-Ends zero now ms n = absurd (omega (arith, n))
sync_loop-Ends (suc fuel) now ms n =
    loop_step fuel now ms (first_active ms) refl (first_active-Located ms) (λ j a at on.
      sync_loop-Ends fuel now (set ms j (expire a))
        (ground (arith, count-set_inactive ms j a (expire a) at on refl, n)))

count_active-length : (ms : List Membership) → count_active ms ≤ length ms
unfolding count_active
count_active-length [] = omega arith
count_active-length (m ∷ ms) = ground (arith, count_active-length ms)

if-SameAll :
    (now : ℕ) (b : Bool) (m x y : Membership) (ms ns : List Membership)
    → (b ≡ true → SameView now m x)
    → (b ≡ false → SameView now m y)
    → SameAll now ms ns
    → SameAll now (m ∷ ms) (if b then x ∷ ns else y ∷ ns)
if-SameAll now true m x y ms ns f g s = (f refl, s)
if-SameAll now false m x y ms ns f g s = (g refl, s)

rest-SameView :
    (now : ℕ) (m : Membership)
    → is_active m.status ≡ false
    → is_expired m.status ≡ false
    → SameView now m (record m { status = paused; activated_at = 0 })
unfolding membership_remaining_seconds is_eligible
rest-SameView now m off kept = (ground (arith, off), ground (arith, off, kept), refl, refl)

pub pause_others-SameAll :
    (now : ℕ) (seen : Bool) (ms : List Membership)
    → count_active ms ≤ (if seen then 0 else 1)
    → SameAll now ms (pause_others seen ms)
unfolding pause_others count_active
pause_others-SameAll now seen [] one = tt
pause_others-SameAll now seen (m ∷ ms) one =
    if-SameAll now (is_active m.status && not seen || is_expired m.status) m m
      (record m { status = paused; activated_at = 0 }) ms
      (pause_others (seen || is_active m.status) ms) (λ _. (refl, refl, refl, refl))
      (λ e. rest-SameView now m (ground (arith, e, one)) (ground (arith, e)))
      (pause_others-SameAll now (seen || is_active m.status) ms (ground (arith, one)))

pub pause_others-first :
    (ms : List Membership) → first_active (pause_others false ms) ≡ first_active ms
unfolding pause_others first_active
pause_others-first [] = refl
pause_others-first (m ∷ ms) =
    elim (Bool-cases (is_active m.status))
      as (λ _. first_active (pause_others false (m ∷ ms)) ≡ first_active (m ∷ ms)) [
        | inl on ↦ rw (on, on) refl
        | inr off ↦
            elim (Bool-cases (is_expired m.status))
              as (λ _. first_active (pause_others false (m ∷ ms)) ≡ first_active (m ∷ ms)) [
                | inl ended ↦ rw (off, ended, off, pause_others-first ms) refl
                | inr kept ↦ rw (off, kept, pause_others-first ms) refl
              ]
      ]

pub pause_others-count :
    (seen : Bool) (ms : List Membership)
    → count_active (pause_others seen ms) ≤ (if seen then 0 else 1)
unfolding pause_others count_active
pause_others-count seen [] = ground arith
pause_others-count seen (m ∷ ms) =
    ground (arith, pause_others-count (seen || is_active m.status) ms)

same_unfit :
    (now : ℕ) (ms ns : List Membership)
    → SameAll now ms ns
    → All (λ x. is_eligible now x ≡ false) ms
    → All (λ x. is_eligible now x ≡ false) ns
same_unfit now [] [] s h = tt
same_unfit now (m ∷ ms) (n ∷ ns) s h = (s.0.1 ∙ h.0, same_unfit now ms ns s.1 h.1)
same_unfit now [] (n ∷ ns) s h = elim s [ ]
same_unfit now (m ∷ ms) [] s h = elim s [ ]

kept-Top :
    (now : ℕ) (ms ns : List Membership) (o : Option (ℕ × Membership))
    → SameAll now ms ns
    → Located ns o
    → Top now ms o
    → Top now ns o
kept-Top now ms ns none s l top = same_unfit now ms ns s top
kept-Top now ms ns (some (i, h)) s l top =
    same-Top now ms ns i h h s (refl, refl, refl, refl) l.0 top

paused-Led :
    (now : ℕ) (ms ns : List Membership) → Led now ms ns → Led now ms (pause_others false ns)
paused-Led now ms ns led =
    let out = pause_others false ns in
    let same = pause_others-SameAll now false ns led.2 in
    let first = pause_others-first ns in
    let located : Located out (first_active ns) =
      subst (Located out) first (first_active-Located out) in
    let top : Top now out (first_active out) =
      subst (Top now out) (sym first) (kept-Top now ns out (first_active ns) same located led.1) in
    (SameAll-trans now ms ns out led.0 same, top, pause_others-count false ns)

-- What the call leaves, of any memberships and of ones of which at most one is active.
abbrev pub Synced : ℕ → List Membership → Option (List Membership) → Type 0
Synced now ms o =
    (ns : List Membership) × (o ≡ some ns)
    × (count_active ns ≤ 1)
    × (count_active ms ≤ 1 → Led now ms ns)

finished-Synced :
    (now : ℕ) (ms : List Membership) (o : Option (List Membership))
    → Ends now ms o
    → Synced now ms (elim o as (λ _. Option (List Membership)) [
      | none ↦ none
      | some chosen ↦ some (pause_others false chosen)
    ])
finished-Synced now ms none (ns, e, led) = absurd (ground (arith, e))
finished-Synced now ms (some chosen) (ns, e, led) =
    let same : chosen ≡ ns = ground (arith, e) in
    (
      pause_others false chosen,
      refl,
      pause_others-count false chosen,
      λ one. paused-Led now ms chosen (subst (Led now ms) (sym same) (led one)),
    )

-- The loop ends for any memberships, and at most one is active afterwards. If at most one was active
-- before, every membership keeps the time that it has left, its rank and whether it may run; the active
-- one may run and none that may run ranks above it; and if none is active, none may run.
pub sync_memberships-Synced :
    (now : ℕ) (ms : List Membership) → Synced now ms (sync_memberships now ms)
unfolding sync_memberships
sync_memberships-Synced now ms =
    finished-Synced now ms (sync_loop (suc (length ms)) now ms)
      (sync_loop-Ends (suc (length ms)) now ms (ground (arith, count_active-length ms)))
