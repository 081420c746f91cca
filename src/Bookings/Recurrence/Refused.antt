-- ===== src/Bookings/Recurrence/Refused.antt =====
-- recurrence.service.ts: weekdays so far back that the guard of the weekly loop throws.
use booking_system.Base.{
  ℕ, zero, suc, ◌+◌, ◌-◌, ◌*◌, ◌/◌, ◌<◌, ◌≤◌, ◌≡◌, refl, inl, inr, Bool, true, false, is_some, List,
  [], ◌∷◌, length, all, is_empty, ltb, leb, err, bad_request, too_restrictive, arith, Bool-cases,
}
use booking_system.Common.Tz.{day_ms}
use booking_system.Bookings.Recurrence.{
  ℤ, pos, negsuc, Plan, Emission, CreateRecurringDto, weekly, round, rounds, week_slots, sort_days,
  insert_day, text_leb, text_of, days_or, weekday, generate, plan, expand_pattern, interval_of,
  max_occurrences,
}
use booking_system.Bookings.Recurrence.Bounds.{count_of-bounds}
use booking_system.Bookings.Recurrence.Ends.{emit_passed}

-- More than 1000 steps of the series back, at 7 days for each unit of the interval.
abbrev pub is_far : ℕ → ℤ → Bool
is_far interval (pos d) = false
is_far interval (negsuc d) = leb (7000 * interval) d

abbrev Passes : Plan → List (ℕ × ℕ) → Type 0
Passes p cs = all (λ (c : ℕ × ℕ). ltb c.0 p.first) cs ≡ true

round-Passes : (p : Plan) (cs : List (ℕ × ℕ)) (e : Emission) → Passes p cs → round p cs e ≡ e
unfolding round
round-Passes p [] e h = refl
round-Passes p (c ∷ cs) e h =
    let q = emit_passed p c e (ground arith) in let r = round-Passes p cs e (ground arith) in rw q r

rounds-Passes :
    (p : Plan) (slots : ℕ → List (ℕ × ℕ)) (k fuel : ℕ) (e : Emission)
    → k + fuel ≤ 1001
    → ((j : ℕ) → j ≤ 1000 → Passes p (slots j))
    → e.emitted < p.count
    → length e.out ≤ max_occurrences
    → rounds p slots k fuel e ≡ err (bad_request too_restrictive)
unfolding rounds
rounds-Passes p slots k zero e b h lt l = ground arith
rounds-Passes p slots k (suc fuel) e b h lt l =
    let t : ltb e.emitted p.count ≡ true = ground arith in
    let q = round-Passes p (slots k) e (h k (omega arith)) in
    let x : ltb max_occurrences (length (round p (slots k) e).out) ≡ false = rw q (ground arith) in
    let r : rounds p slots (suc k) fuel (round p (slots k) e) ≡ err (bad_request too_restrictive) =
      rw q (rounds-Passes p slots (suc k) fuel e (omega arith) h lt l) in
    ground arith

far_day :
    (f n i k d b : ℕ)
    → n ≤ f / day_ms + k * (7 * i) - (suc d + b)
    → suc d + b ≤ f / day_ms + k * (7 * i)
    → 7000 * i ≤ d
    → k ≤ 1000
    → n * day_ms < f
far_day f n i k d b h l m c = let q : k * (7 * i) ≤ 7000 * i = grind arith in omega arith

week_slots-Passes :
    (p : Plan) (days : List ℤ) (k : ℕ)
    → k ≤ 1000
    → all (is_far p.interval) days ≡ true
    → Passes p (week_slots p days k)
unfolding week_slots
week_slots-Passes p [] k c h = refl
week_slots-Passes p (pos d ∷ days) k c h = cc
week_slots-Passes p (negsuc d ∷ days) k c h =
    let n = p.first / day_ms + k * (7 * p.interval) in
    let b = weekday p.first in
    let r = week_slots-Passes p days k c (ground arith) in
    elim (Bool-cases (ltb n (suc d + b))) [
      | inl t ↦ rw t r
      | inr t ↦
          let q =
            far_day p.first (n - (suc d + b)) p.interval k d b (omega arith) (ground arith)
              (ground arith) c in
          rw t (ground arith)
    ]

all-insert_day :
    (q : ℤ → Bool) (d : ℤ) (ds : List ℤ) → all q (d ∷ ds) ≡ true → all q (insert_day d ds) ≡ true
all-insert_day q d [] h = h
all-insert_day q d (x ∷ xs) h = elim (Bool-cases (text_leb (text_of d) (text_of x))) [
  | inl e ↦ rw e h
  | inr e ↦ let r = all-insert_day q d xs (ground arith) in rw e (ground arith)
]

all-sort_days : (q : ℤ → Bool) (ds : List ℤ) → all q ds ≡ true → all q (sort_days ds) ≡ true
unfolding sort_days
all-sort_days q [] h = refl
all-sort_days q (d ∷ ds) h =
    let r = all-sort_days q ds (ground arith) in all-insert_day q d (sort_days ds) (ground arith)

insert_day-some : (d : ℤ) (ds : List ℤ) → is_empty (insert_day d ds) ≡ false
insert_day-some d [] = refl
insert_day-some d (x ∷ xs) = elim (Bool-cases (text_leb (text_of d) (text_of x))) [
  | inl e ↦ rw e refl
  | inr e ↦ rw e refl
]

days_or-some : (ds : List ℤ) (d : ℕ) → is_empty ds ≡ false → days_or ds d ≡ ds
days_or-some [] d h = cc
days_or-some (x ∷ xs) d h = refl

sort_days-some : (ds : List ℤ) → is_empty ds ≡ false → is_empty (sort_days ds) ≡ false
unfolding sort_days
sort_days-some [] h = cc
sort_days-some (d ∷ ds) h = insert_day-some d (sort_days ds)

pub expand_pattern-eq-err :
    (dto : CreateRecurringDto) (first last : ℕ)
    → dto.pattern ≡ weekly
    → is_empty dto.byday ≡ false
    → all (is_far (interval_of dto.interval)) dto.byday ≡ true
    → expand_pattern dto first last ≡ err (bad_request too_restrictive)
unfolding expand_pattern generate
expand_pattern-eq-err dto first last w n f =
    let p = plan dto first last in
    let days = sort_days dto.byday in
    let c = count_of-bounds dto.count (is_some dto.until) in
    let e = days_or-some days (weekday first) (sort_days-some dto.byday n) in
    let r =
      rounds-Passes p (week_slots p days) 0 1001 (record { out = []; emitted = 0 }) (omega arith)
        (λ j l. week_slots-Passes p days j l (all-sort_days (is_far p.interval) dto.byday f))
        (omega arith) (omega arith) in
    rw (w, e, r) refl
