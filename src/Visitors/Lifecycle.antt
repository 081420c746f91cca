-- ===== src/Visitors/Lifecycle.antt =====
-- visitors.service.ts: the lifecycle of a visit through any sequence of calls.
use booking_system.Base.{
  ℕ, ◌≡◌, keep, any, ◌++◌, not_found, or_throw-eq-ok, refl, inl, inr, Bool, true, false, not, ◌||◌,
  some, List, [], ◌∷◌, find-In, In, ◌==◌, Result, ok, err, All, All-imp, All-keep, All-change,
  All-snoc, All-lookup, Bool-cases, find, Result-cases,
}
use booking_system.Visitors.{
  checked_in, checked_out, cancelled, is_checked_in, is_checked_out, is_cancelled, Visit, VisitDto,
  is_visit, get, save, new_visit, create, assigned, update, remove, check_in, check_out, cancel,
}

-- The calls, each with the time of the clock; the id of a new visit comes from the database.
pub data Op : Type 0 where
  creates : (id tenant created_by : ℕ) → VisitDto → Op
  updates : (tenant id : ℕ) → VisitDto → Op
  removes checks_in checks_out cancels : (tenant id : ℕ) → Op

abbrev pub or_stay : List Visit → Result (List Visit) → List Visit
or_stay visits (ok after) = after
or_stay visits (err e) = visits

unfoldable pub apply : ℕ → Op → List Visit → List Visit
apply now (creates id tenant by dto) vs = create id tenant by dto vs
apply now (updates tenant id dto) vs = or_stay vs (update tenant id dto vs)
apply now (removes tenant id) vs = or_stay vs (remove tenant id vs)
apply now (checks_in tenant id) vs = or_stay vs (check_in now tenant id vs)
apply now (checks_out tenant id) vs = or_stay vs (check_out now tenant id vs)
apply now (cancels tenant id) vs = or_stay vs (cancel tenant id vs)

unfoldable pub run : List (ℕ × Op) → List Visit → List Visit
run [] vs = vs
run (o ∷ os) vs = run os (apply o.0 o.1 vs)

-- What one call may do to a row that it finds: the steps of the lifecycle.
pub data Step (now : ℕ) : Visit → Visit → Type 0 where
  edited : {v : Visit} (dto : VisitDto) → Step now v (assigned dto v)
  arrives :
      {v : Visit}
      → (is_checked_out v.status || is_cancelled v.status) ≡ false
      → Step now v (record v { status = checked_in; checked_in_at = some now })
  leaves :
      {v : Visit}
      → is_checked_in v.status ≡ true
      → Step now v (record v { status = checked_out; checked_out_at = some now })
  is_called_off :
      {v : Visit} → is_checked_out v.status ≡ false → Step now v (record v { status = cancelled })

-- What a call does to the table: nothing, or one row is added, rows are deleted, or one found row takes a step.
pub data Change (now : ℕ) : Op → List Visit → List Visit → Type 0 where
  stays : {o : Op} {vs : List Visit} → Change now o vs vs
  adds :
      {id tenant by : ℕ} {dto : VisitDto} {vs : List Visit}
      → Change now (creates id tenant by dto) vs (vs ++ (new_visit id tenant by dto ∷ []))
  drops : {o : Op} {vs : List Visit} (p : Visit → Bool) → Change now o vs (keep p vs)
  steps :
      {o : Op} {vs : List Visit} {v w : Visit}
      → In v vs
      → Step now v w
      → Change now o vs (save w vs)

get-In : (tenant id : ℕ) (vs : List Visit) {v : Visit} → get tenant id vs ≡ ok v → In v vs
unfolding get
get-In tenant id vs g =
    (find-In (is_visit tenant id) vs (or_throw-eq-ok (find (is_visit tenant id) vs) not_found g)).0

pub apply-Change : (now : ℕ) (o : Op) (vs : List Visit) → Change now o vs (apply now o vs)
unfolding apply create update remove check_in check_out cancel
apply-Change now (creates id tenant by dto) vs = adds
apply-Change now (updates tenant id dto) vs = elim (Result-cases (get tenant id vs)) [
  | inr (e, g) ↦ rw g stays
  | inl (v, g) ↦ rw g (steps (get-In tenant id vs g) (edited dto))
]
apply-Change now (removes tenant id) vs = elim (Bool-cases (any (is_visit tenant id) vs)) [
  | inl t ↦ rw t (drops (λ v. not (is_visit tenant id v)))
  | inr f ↦ rw f stays
]
apply-Change now (checks_in tenant id) vs = elim (Result-cases (get tenant id vs)) [
  | inr (e, g) ↦ rw g stays
  | inl (v, g) ↦ elim (Bool-cases (is_checked_out v.status || is_cancelled v.status)) [
    | inl t ↦ rw (g, t) stays
    | inr f ↦ rw (g, f) (steps (get-In tenant id vs g) (arrives f))
  ]
]
apply-Change now (checks_out tenant id) vs = elim (Result-cases (get tenant id vs)) [
  | inr (e, g) ↦ rw g stays
  | inl (v, g) ↦ elim (Bool-cases (is_checked_in v.status)) [
    | inr f ↦ rw (g, f) stays
    | inl t ↦ rw (g, t) (steps (get-In tenant id vs g) (leaves t))
  ]
]
apply-Change now (cancels tenant id) vs = elim (Result-cases (get tenant id vs)) [
  | inr (e, g) ↦ rw g stays
  | inl (v, g) ↦ elim (Bool-cases (is_checked_out v.status)) [
    | inl t ↦ rw (g, t) stays
    | inr f ↦ rw (g, f) (steps (get-In tenant id vs g) (is_called_off f))
  ]
]

-- A property of each row holds after a call where each step keeps it and a new row has it.
pub Change-All :
    (P Q : Visit → Type 0) {now : ℕ} {o : Op} {vs vs' : List Visit}
    → Change now o vs vs'
    → ((v : Visit) → P v → Q v)
    → ((v w : Visit) → Step now v w → P v → Q w)
    → ((id tenant by : ℕ) (dto : VisitDto)
        → creates id tenant by dto ≡ o
        → Q (new_visit id tenant by dto))
    → All P vs
    → All Q vs'
unfolding save
Change-All P Q {vs = vs} stays later keeps fresh h = All-imp P Q vs later h
Change-All P Q {vs = vs} (adds {id} {tenant} {by} {dto}) later keeps fresh h =
    All-snoc Q vs (new_visit id tenant by dto) (All-imp P Q vs later h)
      (fresh id tenant by dto refl)
Change-All P Q {vs = vs} (drops p) later keeps fresh h = All-keep P Q p vs (λ v e q. later v q) h
Change-All P Q {vs = vs} (steps {v = v} {w = w} i s) later keeps fresh h =
    All-change Q (λ (x : Visit). x.id == w.id) (λ _. w) vs
      (λ x t q. keeps v w s (All-lookup P vs h i)) (All-imp P Q vs later h)
