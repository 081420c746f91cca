-- ===== src/Visitors/Stamps.antt =====
-- visitors.service.ts: what the time stamps of a visit say, and that a finished visit stays as it is.
use booking_system.Base.{
  ℕ, ◌≤◌, ◌≡◌, ◌≢◌, refl, sym, subst, true, false, ◌||◌, Option, none, some, List, [], ◌∷◌, All,
  arith,
}
use booking_system.Visitors.{
  VisitStatus, expected, checked_in, checked_out, no_show, cancelled, is_checked_in, is_checked_out,
  is_cancelled, Visit, VisitDto, new_visit, assigned,
}
use booking_system.Visitors.Lifecycle.{
  Op, creates, apply, run, Step, edited, arrives, leaves, is_called_off, apply-Change, Change-All,
}

-- The stamps that each status comes with, none of them later than `now`; no visit is a no-show.
unfoldable pub Stamps : ℕ → VisitStatus → Option ℕ → Option ℕ → Type 0
Stamps now expected came left = (came ≡ none) × (left ≡ none)
Stamps now checked_in came left = (t : ℕ) × (came ≡ some t) × (t ≤ now) × (left ≡ none)
Stamps now checked_out came left =
    (t : ℕ) × (u : ℕ) × (came ≡ some t) × (left ≡ some u) × (t ≤ u) × (u ≤ now)
Stamps now no_show came left = ⊥
Stamps now cancelled came left = left ≡ none

abbrev pub HasStamps : ℕ → Visit → Type 0
HasStamps now v = Stamps now v.status v.checked_in_at v.checked_out_at

Stamps-later :
    (now now' : ℕ) (s : VisitStatus) (came left : Option ℕ)
    → now ≤ now'
    → Stamps now s came left
    → Stamps now' s came left
unfolding Stamps
Stamps-later now now' expected came left h p = p
Stamps-later now now' checked_in came left h (t, c, b, l) = (t, c, omega arith, l)
Stamps-later now now' checked_out came left h (t, u, c, l, b, d) = (t, u, c, l, b, omega arith)
Stamps-later now now' no_show came left h p = p
Stamps-later now now' cancelled came left h p = p

Stamps-not_left :
    (now : ℕ) (s : VisitStatus) (came left : Option ℕ)
    → is_checked_out s ≡ false
    → Stamps now s came left
    → left ≡ none
unfolding Stamps
Stamps-not_left now expected came left h p = p.1
Stamps-not_left now checked_in came left h (t, c, b, l) = l
Stamps-not_left now checked_out came left h p = cc
Stamps-not_left now no_show came left h p = elim p [ ]
Stamps-not_left now cancelled came left h p = p

Stamps-came :
    (now : ℕ) (s : VisitStatus) (came left : Option ℕ)
    → is_checked_in s ≡ true
    → Stamps now s came left
    → (t : ℕ) × (came ≡ some t) × (t ≤ now)
unfolding Stamps
Stamps-came now checked_in came left h (t, c, b, l) = (t, c, b)
Stamps-came now expected came left h p = cc
Stamps-came now checked_out came left h p = cc
Stamps-came now no_show came left h p = cc
Stamps-came now cancelled came left h p = cc

Step-HasStamps :
    (now now' : ℕ) (v w : Visit) → now ≤ now' → Step now' v w → HasStamps now v → HasStamps now' w
unfolding Stamps assigned
Step-HasStamps now now' v _ h (edited dto) p =
    Stamps-later now now' v.status v.checked_in_at v.checked_out_at h p
Step-HasStamps now now' v _ h (arrives g) p = (
  now',
  refl,
  omega arith,
  Stamps-not_left now v.status v.checked_in_at v.checked_out_at (ground arith) p,
)
Step-HasStamps now now' v _ h (leaves g) p =
    let (t, c, b) = Stamps-came now v.status v.checked_in_at v.checked_out_at g p in
    (t, now', c, refl, omega arith, omega arith)
Step-HasStamps now now' v _ h (is_called_off g) p =
    Stamps-not_left now v.status v.checked_in_at v.checked_out_at g p

new_visit-HasStamps :
    (now id tenant by : ℕ) (dto : VisitDto) → HasStamps now (new_visit id tenant by dto)
unfolding new_visit Stamps
new_visit-HasStamps now id tenant by dto = (refl, refl)

-- The calls come in the order of the clock.
unfoldable pub InOrder : ℕ → List (ℕ × Op) → Type 0
InOrder now [] = Unit
InOrder now (o ∷ os) = (now ≤ o.0) × InOrder o.0 os

-- The time of the last call.
unfoldable pub ends_at : ℕ → List (ℕ × Op) → ℕ
ends_at now [] = now
ends_at now (o ∷ os) = ends_at o.0 os

-- Where the clock does not go back, through any sequence of calls: an expected visitor has no stamps; one who is
-- checked in came, not in the future, and has not left; one who is checked out left no earlier than they came; the
-- visit of a cancelled one has no time of leaving; and no visit is ever a no-show.
pub run-HasStamps :
    (now : ℕ) (os : List (ℕ × Op)) (vs : List Visit)
    → InOrder now os
    → All (HasStamps now) vs
    → All (HasStamps (ends_at now os)) (run os vs)
unfolding run InOrder ends_at
run-HasStamps now [] vs r h = h
run-HasStamps now (o ∷ os) vs r h = run-HasStamps o.0 os (apply o.0 o.1 vs) r.1 (
    Change-All (HasStamps now) (HasStamps o.0) (apply-Change o.0 o.1 vs)
      (λ v p. Stamps-later now o.0 v.status v.checked_in_at v.checked_out_at r.0 p)
      (λ v w s p. Step-HasStamps now o.0 v w r.0 s p)
      (λ id tenant by dto e. new_visit-HasStamps o.0 id tenant by dto) h)

-- The visit `j`, where it is still there, has this status and these stamps.
abbrev pub IsStill : ℕ → VisitStatus → Option ℕ → Option ℕ → Visit → Type 0
IsStill j s came left v =
    v.id ≡ j → (v.status ≡ s) × (v.checked_in_at ≡ came) × (v.checked_out_at ≡ left)

-- No call makes a visit with the id `j`.
abbrev pub IsOther : ℕ → ℕ × Op → Type 0
IsOther j (t, creates id tenant by dto) = id ≢ j
IsOther j _ = Unit

finished-not_in :
    (s : VisitStatus) → (is_checked_out s || is_cancelled s) ≡ true → is_checked_in s ≡ false
finished-not_in expected f = refl
finished-not_in checked_in f = cc
finished-not_in checked_out f = refl
finished-not_in no_show f = refl
finished-not_in cancelled f = refl

finished-cancelled :
    (s : VisitStatus)
    → (is_checked_out s || is_cancelled s) ≡ true
    → is_checked_out s ≡ false
    → cancelled ≡ s
finished-cancelled expected f g = cc
finished-cancelled checked_in f g = cc
finished-cancelled checked_out f g = cc
finished-cancelled no_show f g = cc
finished-cancelled cancelled f g = refl

Step-IsStill :
    (j now : ℕ) (s : VisitStatus) (came left : Option ℕ) (v w : Visit)
    → (is_checked_out s || is_cancelled s) ≡ true
    → Step now v w
    → IsStill j s came left v
    → IsStill j s came left w
unfolding assigned
Step-IsStill j now s came left v _ f (edited dto) p = p
Step-IsStill j now s came left v _ f (arrives g) p =
    λ e. let r = subst (λ x. (is_checked_out x || is_cancelled x) ≡ false) (p e).0 g in absurd cc
Step-IsStill j now s came left v _ f (leaves g) p = λ e.
    let r = subst (λ x. is_checked_in x ≡ true) (p e).0 g in
    let n = finished-not_in s f in absurd cc
Step-IsStill j now s came left v _ f (is_called_off g) p = λ e.
    let r = subst (λ x. is_checked_out x ≡ false) (p e).0 g in
    let k = p e in (finished-cancelled s f r, k.1, k.2)

new_visit-IsStill :
    (j : ℕ) (s : VisitStatus) (came left : Option ℕ) (t id tenant by : ℕ) (dto : VisitDto) (o : Op)
    → creates id tenant by dto ≡ o
    → IsOther j (t, o)
    → IsStill j s came left (new_visit id tenant by dto)
unfolding new_visit
new_visit-IsStill j s came left t id tenant by dto o e n =
    let m : id ≢ j = subst (λ x. IsOther j (t, x)) (sym e) n in λ q. absurd (m q)

-- A visit that is checked out or cancelled keeps its status and its stamps through any sequence of calls that gives
-- no new visit its id: no update, check-in, check-out or cancellation moves it, and it can only be deleted.
pub run-IsStill :
    (j : ℕ) (s : VisitStatus) (came left : Option ℕ) (os : List (ℕ × Op)) (vs : List Visit)
    → (is_checked_out s || is_cancelled s) ≡ true
    → All (IsOther j) os
    → All (IsStill j s came left) vs
    → All (IsStill j s came left) (run os vs)
unfolding run
run-IsStill j s came left [] vs f n h = h
run-IsStill j s came left ((t, o) ∷ os) vs f n h =
    run-IsStill j s came left os (apply t o vs) f n.1 (
      Change-All (IsStill j s came left) (IsStill j s came left) (apply-Change t o vs) (λ v p. p)
        (λ v w q p. Step-IsStill j t s came left v w f q p)
        (λ id tenant by dto e. new_visit-IsStill j s came left t id tenant by dto o e n.0) h)
