-- ===== src/Bookings/Recurrence/Ends.antt =====
-- recurrence.service.ts: the guard of the weekly and monthly loops is not reached where some day is not negative.
use booking_system.Base.{
  ℕ, zero, suc, ◌+◌, ◌-◌, ◌*◌, ◌/◌, ◌%◌, ◌<◌, ◌≤◌, ◌≡◌, refl, inl, inr, any, is_empty, ap, ◌∙◌,
  ◌||◌, none, some, true, false, min, Option, is_some, List, [], ◌∷◌, length, ltb, leb, ok, arith,
  Bool-cases, ◌⊎◌, take,
}
use booking_system.Common.Tz.{day_ms}
use booking_system.Common.Calendar.{
  month_length, month_start, month_of, month_of-ends, month_start_mono,
}
use booking_system.Bookings.Recurrence.{
  ℤ, pos, negsuc, is_natural, add_slot, day_at, week_slot, month_slot, insert_day, text_leb,
  text_of, Plan, Occurrence, Emission, Pattern, Whole, interval_of, daily, weekly, bi_weekly,
  monthly, custom, CreateRecurringDto, past_until, push, emit, round, rounds, loop, week_slots,
  month_slots, generate, plan, expand_pattern, days_or, sort_days, weekday, day_of_month,
  max_occurrences, daily_from, bi_weekly_from, max_expansion_iterations,
}
use booking_system.Bookings.Recurrence.Bounds.{count_of-bounds}

-- A round has a candidate that is not passed over.
abbrev Advances : Plan → List (ℕ × ℕ) → Type 0
Advances p cs = any (λ (c : ℕ × ℕ). leb p.first c.0) cs ≡ true

-- No days, for which the day of the first start stands in, or one that is not negative.
abbrev pub HasNatural : List ℤ → Type 0
HasNatural days = (is_empty days || any is_natural days) ≡ true

emit_mono :
    (p : Plan) (c : ℕ × ℕ) (e : Emission)
    → e.emitted < p.count
    → (e.emitted ≤ (emit p c e).0.emitted)
      × (((emit p c e).1 ≡ true) ⊎ ((emit p c e).0.emitted < p.count))
      × (p.first ≤ c.0 → e.emitted < (emit p c e).0.emitted)
unfolding emit
emit_mono p c e lt = elim (Bool-cases (ltb c.0 p.first)) [
  | inl b ↦ rw b (omega arith, inr lt, λ l. absurd (ground arith))
  | inr b ↦ elim (Bool-cases (past_until p.until c.1)) [
    | inl u ↦ rw (b, u) (omega arith, inl refl, λ l. lt)
    | inr u ↦
        rw (b, u)
          (
            omega arith,
            (elim (Bool-cases (leb p.count (suc e.emitted))) [
              | inl x ↦ inl x
              | inr x ↦ inr (ground arith)
            ]),
            λ l. omega arith,
          )
  ]
]

pub emit_passed : (p : Plan) (c : ℕ × ℕ) (e : Emission) → c.0 < p.first → emit p c e ≡ (e, false)
unfolding emit
emit_passed p c e h = let t : ltb c.0 p.first ≡ true = ground arith in rw t refl

round_mono :
    (p : Plan) (cs : List (ℕ × ℕ)) (e : Emission)
    → e.emitted < p.count
    → e.emitted ≤ (round p cs e).emitted
unfolding round
round_mono p [] e lt = omega arith
round_mono p (c ∷ cs) e lt =
    let (le, b, a) = emit_mono p c e lt in
    elim (Bool-cases (emit p c e).1) [
      | inl t ↦ rw t le
      | inr f ↦ let r = round_mono p cs (emit p c e).0 (ground arith) in rw f (omega arith)
    ]

round-Advances :
    (p : Plan) (cs : List (ℕ × ℕ)) (e : Emission)
    → Advances p cs
    → e.emitted < p.count
    → e.emitted < (round p cs e).emitted
unfolding round
round-Advances p [] e h lt = cc
round-Advances p (c ∷ cs) e h lt = elim (Bool-cases (leb p.first c.0)) [
  | inl y ↦
      let (le, b, a) = emit_mono p c e lt in
      let lt' = a (ground arith) in
      elim (Bool-cases (emit p c e).1) [
        | inl t ↦ rw t lt'
        | inr f ↦ let r = round_mono p cs (emit p c e).0 (ground arith) in rw f (omega arith)
      ]
  | inr n ↦
      let q = emit_passed p c e (ground arith) in
      let r = round-Advances p cs e (ground arith) lt in rw q r
]

-- From the third round on each round counts a date, so that count + 2 rounds are enough.
rounds-eq-ok :
    (p : Plan) (slots : ℕ → List (ℕ × ℕ)) (k fuel : ℕ) (e : Emission)
    → ((j : ℕ) → 2 ≤ j → Advances p (slots j))
    → p.count + 2 ≤ e.emitted + fuel + min k 2
    → (out : List Occurrence) × (rounds p slots k fuel e ≡ ok out)
unfolding rounds
rounds-eq-ok p slots k zero e adv le =
    let f : ltb e.emitted p.count ≡ false = ground arith in (e.out, rw f refl)
rounds-eq-ok p slots k (suc fuel) e adv le = elim (Bool-cases (ltb e.emitted p.count)) [
  | inr f ↦ (e.out, ground arith)
  | inl t ↦
      let lt : e.emitted < p.count = ground arith in
      let next = round p (slots k) e in
      let enough : p.count + 2 ≤ next.emitted + fuel + min (suc k) 2 = elim (Bool-cases (leb 2 k)) [
        | inl y ↦ let r = round-Advances p (slots k) e (adv k (ground arith)) lt in ground arith
        | inr n ↦ let r = round_mono p (slots k) e lt in ground arith
      ] in
      elim (Bool-cases (ltb max_occurrences (length next.out))) [
        | inl x ↦ (next.out, ground arith)
        | inr x ↦
            let (out, q) = rounds-eq-ok p slots (suc k) fuel next adv enough in (out, ground arith)
      ]
]

mul_le : (k i n : ℕ) → 1 ≤ k → n ≤ i → n ≤ k * i
mul_le k i n h l = grind arith

add_slot-Advances :
    (p : Plan) (o : Option ℕ) (slot : ℕ → ℕ × ℕ) (slots : List (ℕ × ℕ))
    → Advances p slots
    → Advances p (add_slot o slot slots)
add_slot-Advances p none slot slots h = h
add_slot-Advances p (some day) slot slots h = ground arith

week_slots-Advances :
    (p : Plan) (days : List ℤ) (k : ℕ)
    → any is_natural days ≡ true
    → 1 ≤ p.interval
    → 2 ≤ k
    → Advances p (week_slots p days k)
unfolding week_slots
week_slots-Advances p [] k a i h = cc
week_slots-Advances p (negsuc d ∷ days) k a i h =
    add_slot-Advances p
      (day_at (p.first / day_ms + k * (7 * p.interval)) (negsuc d) (weekday p.first)) (week_slot p)
      (week_slots p days k) (week_slots-Advances p days k a i h)
week_slots-Advances p (pos d ∷ days) k a i h =
    let l : 14 ≤ k * (7 * p.interval) = grind arith in
    let f : ltb (p.first / day_ms + k * (7 * p.interval) + d) (weekday p.first) ≡ false =
      ground arith in
    rw f (ground arith)

month_passes : (f a n x : ℕ) → f / day_ms < a → a + 28 ≤ n → f ≤ (n + x - 1) * day_ms + f % day_ms
month_passes f a n x h l = omega arith

month_inside : (a n x : ℕ) → a + 28 ≤ n → ltb (n + x) 1 ≡ false
month_inside a n x h = ground arith

month_slots-Advances :
    (p : Plan) (days : List ℤ) (k : ℕ)
    → any is_natural days ≡ true
    → 1 ≤ p.interval
    → 2 ≤ k
    → Advances p (month_slots p days k)
unfolding month_slots
month_slots-Advances p [] k a i h = cc
month_slots-Advances p (negsuc d ∷ days) k a i h =
    add_slot-Advances p
      (day_at (month_start (month_of (p.first / day_ms) + k * p.interval)) (negsuc d) 1)
      (month_slot p) (month_slots p days k) (month_slots-Advances p days k a i h)
month_slots-Advances p (pos d ∷ days) k a i h =
    let mo = month_of (p.first / day_ms) in
    let m : 2 ≤ k * p.interval = grind arith in
    let mono = month_start_mono (suc mo) (mo + k * p.interval) (omega arith) in
    let e = month_of-ends (p.first / day_ms) in
    let n = month_start (mo + k * p.interval) in
    let f : ltb (n + min d (month_length (mo + k * p.interval))) 1 ≡ false =
      month_inside (month_start (suc mo)) n (min d (month_length (mo + k * p.interval)))
        (omega arith) in
    let q =
      month_passes p.first (month_start (suc mo)) n (min d (month_length (mo + k * p.interval))) e
        (omega arith) in
    rw f (ground arith)

-- The rounds that the guard allows are enough.
loop-eq-ok :
    (p : Plan) (slots : ℕ → List (ℕ × ℕ))
    → p.count ≤ max_occurrences
    → ((j : ℕ) → 2 ≤ j → Advances p (slots j))
    → (out : List Occurrence) × (loop p slots ≡ ok out)
loop-eq-ok p slots c adv =
    rounds-eq-ok p slots 0 (max_expansion_iterations + 1) (record { out = []; emitted = 0 }) adv
      (omega arith)

any-insert_day : (d : ℤ) (ds : List ℤ) → any is_natural (insert_day d ds) ≡ any is_natural (d ∷ ds)
any-insert_day d [] = refl
any-insert_day d (x ∷ xs) = elim (Bool-cases (text_leb (text_of d) (text_of x))) [
  | inl e ↦ rw e refl
  | inr e ↦ let r = any-insert_day d xs in rw e (ground arith)
]

any-sort_days : (ds : List ℤ) → any is_natural (sort_days ds) ≡ any is_natural ds
unfolding sort_days
any-sort_days [] = refl
any-sort_days (d ∷ ds) =
    let r = any-sort_days ds in any-insert_day d (sort_days ds) ∙ ap (λ b. is_natural d || b) r

any-days_or : (ds : List ℤ) (d : ℕ) → HasNatural ds → any is_natural (days_or ds d) ≡ true
any-days_or [] d h = refl
any-days_or (x ∷ xs) d h = h

sort_days-HasNatural : (ds : List ℤ) → HasNatural ds → HasNatural (sort_days ds)
unfolding sort_days
sort_days-HasNatural [] h = refl
sort_days-HasNatural (d ∷ ds) h = let a = any-sort_days (d ∷ ds) in ground arith

generate-eq-ok :
    (p : Plan) (k : Pattern) (byday bymonth : List ℤ)
    → HasNatural byday
    → HasNatural bymonth
    → 1 ≤ p.interval
    → p.count ≤ max_occurrences
    → (out : List Occurrence) × (generate p k byday bymonth ≡ ok out)
unfolding generate
generate-eq-ok p daily byday bymonth b m i c = (daily_from p 0 p.count [], refl)
generate-eq-ok p bi_weekly byday bymonth b m i c = (bi_weekly_from p 0 p.count [], refl)
generate-eq-ok p custom byday bymonth b m i c = (push p p.first [], refl)
generate-eq-ok p weekly byday bymonth b m i c =
    let days = days_or (sort_days byday) (weekday p.first) in
    let a = any-days_or (sort_days byday) (weekday p.first) (sort_days-HasNatural byday b) in
    loop-eq-ok p (week_slots p days) c (λ j l. week_slots-Advances p days j a i l)
generate-eq-ok p monthly byday bymonth b m i c =
    let days = days_or bymonth (day_of_month p.first) in
    let a = any-days_or bymonth (day_of_month p.first) m in
    loop-eq-ok p (month_slots p days) c (λ j l. month_slots-Advances p days j a i l)

interval_of-positive : (i : Option Whole) → 1 ≤ interval_of i
unfolding interval_of
interval_of-positive i = ground arith

-- A pattern is expanded within the guard.
pub expand_pattern-eq-ok :
    (dto : CreateRecurringDto) (first last : ℕ)
    → HasNatural dto.byday
    → HasNatural dto.bymonth
    → (out : List Occurrence) × (expand_pattern dto first last ≡ ok out)
unfolding expand_pattern
expand_pattern-eq-ok dto first last b m =
    let (out, e) =
      generate-eq-ok (plan dto first last) dto.pattern dto.byday dto.bymonth b m
        (interval_of-positive dto.interval) (count_of-bounds dto.count (is_some dto.until)).1 in
    (take max_occurrences out, rw e refl)
