-- ===== src/Memberships/Sync.antt =====
-- app/users.py, `_sync_membership_state`: the loop that hands the running membership on.
use api.Base.{
  ℕ, zero, suc, ◌+◌, ◌≤◌, Bool, true, false, Option, none, some, List, [], ◌∷◌, ◌==◌, ◌≡◌, ◌≢◌,
  refl, arith, if◌then◌else◌, get_elem?, get_elem?-set_ne, set, All, inl, inr, ap, sym, ◌∙◌, subst,
}
use api.Memberships.State.{
  Membership, is_active, is_expired, membership_remaining_seconds, is_above, is_eligible,
  first_active, pause, activate,
}
use api.Memberships.View.{
  SameView, SameAll, SameAll-refl, SameAll-trans, set-SameAll, not_expired, pause-SameView,
  activate-SameView, count_active, NoneAbove, Top,
}

count-set :
    (ms : List Membership) (i : ℕ) (v : Membership)
    → count_active (set ms i v) ≤ count_active ms + 1
unfolding count_active
count-set [] i v = omega arith
count-set (m ∷ ms) zero v = ground arith
count-set (m ∷ ms) (suc i) v = ground (arith, count-set ms i v)

pub count-set_inactive :
    (ms : List Membership) (j : ℕ) (a v : Membership)
    → get_elem? ms j ≡ some a
    → is_active a.status ≡ true
    → is_active v.status ≡ false
    → count_active ms ≡ count_active (set ms j v) + 1
unfolding count_active
count-set_inactive [] j a v e act off = absurd (ground (arith, e))
count-set_inactive (m ∷ ms) zero a v e act off =
    let same : m ≡ a = ground (arith, e) in
    let on : is_active m.status ≡ true = rw same act in ground (arith, on, off)
count-set_inactive (m ∷ ms) (suc j) a v e act off =
    ground (arith, count-set_inactive ms j a v e act off)

count_active-inactive :
    (ms : List Membership) (i : ℕ) (h : Membership)
    → count_active ms ≡ 0
    → get_elem? ms i ≡ some h
    → is_active h.status ≡ false
unfolding count_active
count_active-inactive [] i h z e = absurd (ground (arith, e))
count_active-inactive (m ∷ ms) zero h z e =
    let same : m ≡ h = ground (arith, e) in
    subst (λ k. is_active k.status ≡ false) same (ground (arith, z))
count_active-inactive (m ∷ ms) (suc i) h z e = count_active-inactive ms i h (ground (arith, z)) e

first_active-set :
    (ms : List Membership) (i : ℕ) (h v : Membership)
    → count_active ms ≡ 0
    → get_elem? ms i ≡ some h
    → is_active v.status ≡ true
    → first_active (set ms i v) ≡ some (i, v)
unfolding count_active first_active
first_active-set [] i h v z e on = absurd (ground (arith, e))
first_active-set (m ∷ ms) zero h v z e on = rw on refl
first_active-set (m ∷ ms) (suc i) h v z e on =
    let off : is_active m.status ≡ false = ground (arith, z) in
    rw (off, first_active-set ms i h v (ground (arith, z)) e on) refl

set-get :
    (ms : List Membership) (i : ℕ) (h v : Membership)
    → get_elem? ms i ≡ some h
    → get_elem? (set ms i v) i ≡ some v
set-get [] i h v e = absurd (ground (arith, e))
set-get (m ∷ ms) zero h v e = refl
set-get (m ∷ ms) (suc i) h v e = set-get ms i h v e

above_same :
    (now : ℕ) (x y h v : Membership)
    → SameView now x y
    → SameView now h v
    → is_above x h ≡ false
    → is_above y v ≡ false
unfolding is_above
above_same now x y h v s t a = rw (s.2, t.2, s.3, t.3) a

same-NoneAbove :
    (now : ℕ) (h v : Membership) (ms ns : List Membership)
    → SameAll now ms ns
    → SameView now h v
    → NoneAbove now h ms
    → NoneAbove now v ns
same-NoneAbove now h v [] [] s t n = tt
same-NoneAbove now h v (x ∷ ms) (y ∷ ns) s t (inl e, n) =
    (inl (s.0.1 ∙ e), same-NoneAbove now h v ms ns s.1 t n)
same-NoneAbove now h v (x ∷ ms) (y ∷ ns) s t (inr e, n) =
    (inr (above_same now x y h v s.0 t e), same-NoneAbove now h v ms ns s.1 t n)
same-NoneAbove now h v [] (y ∷ ns) s t n = elim s [ ]
same-NoneAbove now h v (x ∷ ms) [] s t n = elim s [ ]

pub same-Top :
    (now : ℕ) (ms ns : List Membership) (i : ℕ) (h v : Membership)
    → SameAll now ms ns
    → SameView now h v
    → get_elem? ns i ≡ some v
    → Top now ms (some (i, h))
    → Top now ns (some (i, v))
same-Top now ms ns i h v s t e top = (e, t.1 ∙ top.1, same-NoneAbove now h v ms ns s t top.2)

-- What the loop comes to.
abbrev pub Led : ℕ → List Membership → List Membership → Type 0
Led now ms ns = SameAll now ms ns × Top now ns (first_active ns) × (count_active ns ≤ 1)

eligible_kept : (now : ℕ) (h : Membership) → is_eligible now h ≡ true → is_expired h.status ≡ false
unfolding is_eligible
eligible_kept now h e = ground (arith, e)

pub idle-Led :
    (now : ℕ) (ms : List Membership) (o : Option (ℕ × Membership))
    → first_active ms ≡ none
    → count_active ms ≡ 0
    → Top now ms o
    → Led now ms
        (elim o as (λ _. List Membership) [ none ↦ ms | some (i, h) ↦ set ms i (activate now h) ])
idle-Led now ms none f z top = (SameAll-refl now ms, rw f top, ground (arith, z))
idle-Led now ms (some (i, h)) f z top =
    let off = count_active-inactive ms i h z top.0 in
    let view = activate-SameView now h off (eligible_kept now h top.1) in
    let same = set-SameAll now ms i h (activate now h) top.0 view in
    let first = first_active-set ms i h (activate now h) z top.0 refl in
    let led =
      same-Top now ms (set ms i (activate now h)) i h (activate now h) same view
        (set-get ms i h (activate now h) top.0) top in
    (same, rw first led, ground (arith, count-set ms i (activate now h), z))

get-All :
    (P : Membership → Type 0) (ms : List Membership) (i : ℕ) (m : Membership)
    → get_elem? ms i ≡ some m
    → All P ms
    → P m
get-All P [] i m e h = absurd (ground (arith, e))
get-All P (n ∷ ms) zero m e h = let same : n ≡ m = ground (arith, e) in subst P same h.0
get-All P (n ∷ ms) (suc i) m e h = get-All P ms i m e h.1

if-Led :
    (now : ℕ) (ms : List Membership) (b : Bool) (x y : List Membership)
    → (b ≡ true → Led now ms x)
    → (b ≡ false → Led now ms y)
    → Led now ms (if b then x else y)
if-Led now ms true x y f g = f refl
if-Led now ms false x y f g = g refl

running_eligible :
    (now : ℕ) (a : Membership)
    → is_active a.status ≡ true
    → (membership_remaining_seconds now a == 0) ≡ false
    → is_eligible now a ≡ true
unfolding is_eligible
running_eligible now a on left = let kept = not_expired a.status on in ground (arith, kept, left)

module _ (now : ℕ) (ms : List Membership) (j : ℕ) (a : Membership)
    (f : first_active ms ≡ some (j, a)) (at : get_elem? ms j ≡ some a)
    (on : is_active a.status ≡ true) (one : count_active ms ≤ 1) where
  -- The running membership keeps running.
  stay-Led : (i : ℕ) (h : Membership) → (i == j) ≡ true → Top now ms (some (i, h)) → Led now ms ms
  stay-Led i h e top =
      let places : i ≡ j = ground (arith, e) in
      let both : some h ≡ some a = sym top.0 ∙ ap (get_elem? ms) places ∙ at in
      let same : h ≡ a = ground (arith, both) in
      let led : Top now ms (some (j, a)) = (
        at,
        subst (λ k. is_eligible now k ≡ true) same top.1,
        subst (λ k. NoneAbove now k ms) same top.2,
      ) in
      (SameAll-refl now ms, rw f led, one)

  -- The running membership hands over to one of a higher rank.
  swap-Led :
      (i : ℕ) (h : Membership)
      → (i == j) ≡ false
      → Top now ms (some (i, h))
      → Led now ms (set (set ms j (pause now a)) i (activate now h))
  swap-Led i h e top =
      let paused_ms = set ms j (pause now a) in
      let counted = count-set_inactive ms j a (pause now a) at on refl in
      let none_on : count_active paused_ms ≡ 0 = ground (arith, counted, one) in
      let apart : j ≢ i = λ k. ground (arith, e, k) in
      let there : get_elem? paused_ms i ≡ some h =
        get_elem?-set_ne ms (pause now a) apart ∙ top.0 in
      let off = count_active-inactive paused_ms i h none_on there in
      let view = activate-SameView now h off (eligible_kept now h top.1) in
      let out = set paused_ms i (activate now h) in
      let same : SameAll now ms out =
        SameAll-trans now ms paused_ms out
          (set-SameAll now ms j a (pause now a) at (pause-SameView now a on))
          (set-SameAll now paused_ms i h (activate now h) there view) in
      let first = first_active-set paused_ms i h (activate now h) none_on there refl in
      let led =
        same-Top now ms out i h (activate now h) same view
          (set-get paused_ms i h (activate now h) there) top in
      (same, rw first led, ground (arith, count-set paused_ms i (activate now h), none_on))

  pub busy-Led :
      (o : Option (ℕ × Membership))
      → (membership_remaining_seconds now a == 0) ≡ false
      → Top now ms o
      → Led now ms (elim o as (λ _. List Membership) [
        | none ↦ ms
        | some (i, h) ↦ if i == j then ms else set (set ms j (pause now a)) i (activate now h)
      ])
  busy-Led none left top =
      let unfit = get-All (λ x. is_eligible now x ≡ false) ms j a at top in
      absurd (ground (arith, unfit, running_eligible now a on left))
  busy-Led (some (i, h)) left top =
      if-Led now ms (i == j) ms (set (set ms j (pause now a)) i (activate now h))
        (λ e. stay-Led i h e top) (λ e. swap-Led i h e top)
