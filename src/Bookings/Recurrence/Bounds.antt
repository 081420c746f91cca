-- ===== src/Bookings/Recurrence/Bounds.antt =====
-- recurrence.service.ts: what every occurrence of an expansion satisfies, and how many there are.
use booking_system.Base.{
  ℕ, zero, suc, ◌+◌, ◌*◌, ◌≤◌, ◌<◌, ◌≡◌, refl, sym, subst, inl, inr, Bool, true, false, ◌||◌,
  Option, none, some, ◌/◌, is_some, List, [], ◌∷◌, any, length, leb, ltb, ok, arith, All,
  Bool-cases, Result-cases, All-snoc, length-snoc, take-all, ◌⊎◌,
}
use booking_system.Common.Tz.{day_ms}
use booking_system.Common.Calendar.{month_of, month_start, month_length}
use booking_system.Bookings.Recurrence.{
  Pattern, Whole, daily, weekly, bi_weekly, monthly, custom, CreateRecurringDto, Occurrence, Plan,
  Emission, ℤ, add_slot, day_at, week_slot, month_slot, snapped, is_instant, past_until, occurrence,
  push, daily_start, daily_from, bi_weekly_from, emit, round, rounds, loop, week_slots, month_slots,
  generate, plan, expand_pattern, max_occurrences, days_or, sort_days, weekday, day_of_month,
  count_of,
}

-- In its place, as long as the first, on no excluded date, and not after the end date.
pub record IsOccurrence (p : Plan) (Q : ℕ → Type 0) (o : Occurrence) : Type 0 where
  pub placed : Q o.start
  pub same_length : o.end ≡ o.start + p.duration
  pub not_excluded : any (is_instant o.start) p.ex_dates ≡ false
  pub within : past_until p.until o.start ≡ false

push-All :
    (p : Plan) (Q : ℕ → Type 0) (s : ℕ) (out : List Occurrence)
    → Q s
    → All (IsOccurrence p Q) out
    → All (IsOccurrence p Q) (push p s out)
unfolding push
push-All p Q s out le h =
    elim (Bool-cases (any (is_instant s) p.ex_dates || past_until p.until s)) [
      | inl e ↦ rw e h
      | inr e ↦ rw e (
          All-snoc (IsOccurrence p Q) out (occurrence p s) h (record {
            placed = le;
            same_length = refl;
            not_excluded = ground arith;
            within = ground arith;
          }))
    ]

pub length-push :
    (p : Plan) (s : ℕ) (out : List Occurrence) → length (push p s out) ≤ suc (length out)
unfolding push
length-push p s out = ground (arith, length-snoc out (occurrence p s))

abbrev pub From : Plan → ℕ → Type 0
From p s = p.first ≤ s

daily_from-All :
    (p : Plan) (i n : ℕ) (out : List Occurrence)
    → All (IsOccurrence p (From p)) out
    → All (IsOccurrence p (From p)) (daily_from p i n out)
unfolding daily_from
daily_from-All p i zero out h = h
daily_from-All p i (suc n) out h =
    let k = push-All p (From p) (daily_start p i) out (omega arith) h in
    elim (Bool-cases (past_until p.until (daily_start p i))) [
      | inl e ↦ rw e k
      | inr e ↦ rw e (daily_from-All p (suc i) n (push p (daily_start p i) out) k)
    ]

pub length-daily_from :
    (p : Plan) (i n : ℕ) (out : List Occurrence) → length (daily_from p i n out) ≤ length out + n
unfolding daily_from
length-daily_from p i zero out = omega arith
length-daily_from p i (suc n) out =
    let k = length-push p (daily_start p i) out in
    elim (Bool-cases (past_until p.until (daily_start p i))) [
      | inl e ↦ rw e (omega arith)
      | inr e ↦
          let r = length-daily_from p (suc i) n (push p (daily_start p i) out) in rw e (omega arith)
    ]

bi_weekly_from-All :
    (p : Plan) (i n : ℕ) (out : List Occurrence)
    → All (IsOccurrence p (From p)) out
    → All (IsOccurrence p (From p)) (bi_weekly_from p i n out)
unfolding bi_weekly_from
bi_weekly_from-All p i zero out h = h
bi_weekly_from-All p i (suc n) out h =
    let s = p.first + i * 14 * p.interval * day_ms in
    bi_weekly_from-All p (suc i) n (push p s out) (push-All p (From p) s out (omega arith) h)

length-bi_weekly_from :
    (p : Plan) (i n : ℕ) (out : List Occurrence)
    → length (bi_weekly_from p i n out) ≤ length out + n
unfolding bi_weekly_from
length-bi_weekly_from p i zero out = omega arith
length-bi_weekly_from p i (suc n) out =
    let s = p.first + i * 14 * p.interval * day_ms in
    let k = length-push p s out in
    let r = length-bi_weekly_from p (suc i) n (push p s out) in omega arith

-- What a candidate that is not passed over makes is in its place.
abbrev pub Fits : Plan → (ℕ → Type 0) → List (ℕ × ℕ) → Type 0
Fits p Q = All (λ (c : ℕ × ℕ). p.first ≤ c.0 → Q c.1)

-- The loop counts at least what it keeps, and no more than it was asked for.
pub record IsSound (p : Plan) (Q : ℕ → Type 0) (e : Emission) : Type 0 where
  pub kept : All (IsOccurrence p Q) e.out
  pub counted : length e.out ≤ e.emitted
  pub asked : e.emitted ≤ p.count

emit-IsSound :
    (p : Plan) (Q : ℕ → Type 0) (c : ℕ × ℕ) (e : Emission)
    → (p.first ≤ c.0 → Q c.1)
    → e.emitted < p.count
    → IsSound p Q e
    → IsSound p Q (emit p c e).0 × (((emit p c e).1 ≡ true) ⊎ ((emit p c e).0.emitted < p.count))
unfolding emit
emit-IsSound p Q c e le lt h = elim (Bool-cases (ltb c.0 p.first)) [
  | inl b ↦ rw b (h, inr lt)
  | inr b ↦ elim (Bool-cases (past_until p.until c.1)) [
    | inl u ↦
        rw (b, u)
          (
            record {
              kept = h.kept;
              counted = (let k = h.counted in omega arith);
              asked = omega arith;
            },
            inl refl,
          )
    | inr u ↦
        rw (b, u)
          (
            record {
              kept = push-All p Q c.1 e.out (le (ground arith)) h.kept;
              counted = (let k = h.counted in let l = length-push p c.1 e.out in omega arith);
              asked = omega arith;
            },
            (elim (Bool-cases (leb p.count (suc e.emitted))) [
              | inl x ↦ inl x
              | inr x ↦ inr (ground arith)
            ]),
          )
  ]
]

round-IsSound :
    (p : Plan) (Q : ℕ → Type 0) (cs : List (ℕ × ℕ)) (e : Emission)
    → Fits p Q cs
    → e.emitted < p.count
    → IsSound p Q e
    → IsSound p Q (round p cs e)
unfolding round
round-IsSound p Q [] e o lt h = h
round-IsSound p Q (c ∷ cs) e o lt h =
    let (k, b) = emit-IsSound p Q c e o.0 lt h in
    elim (Bool-cases (emit p c e).1) [
      | inl t ↦ rw t k
      | inr f ↦ rw f (round-IsSound p Q cs (emit p c e).0 o.1 (ground arith) k)
    ]

-- The occurrences of a plan.
pub record IsExpansion (p : Plan) (Q : ℕ → Type 0) (out : List Occurrence) : Type 0 where
  pub each : All (IsOccurrence p Q) out
  pub few : length out ≤ p.count

rounds-IsExpansion :
    (p : Plan) (Q : ℕ → Type 0) (slots : ℕ → List (ℕ × ℕ)) (k fuel : ℕ) (e : Emission)
    {out : List Occurrence}
    → ((j : ℕ) → Fits p Q (slots j))
    → IsSound p Q e
    → rounds p slots k fuel e ≡ ok out
    → IsExpansion p Q out
unfolding rounds
rounds-IsExpansion p Q slots k zero e {out} o h r =
    let q : e.out ≡ out = ground arith in
    rw (sym q)
      (record { each = h.kept; few = (let a = h.counted in let b = h.asked in omega arith) })
rounds-IsExpansion p Q slots k (suc fuel) e {out} o h r =
    elim (Bool-cases (ltb e.emitted p.count)) [
      | inr f ↦
          let q : e.out ≡ out = ground arith in
          rw (sym q)
            (record { each = h.kept; few = (let a = h.counted in let b = h.asked in omega arith) })
      | inl t ↦
          let n = round-IsSound p Q (slots k) e (o k) (ground arith) h in
          elim (Bool-cases (ltb max_occurrences (length (round p (slots k) e).out))) [
            | inl x ↦
                let q : (round p (slots k) e).out ≡ out = ground arith in
                rw (sym q) (record {
                  each = n.kept;
                  few = (let a = n.counted in let b = n.asked in omega arith);
                })
            | inr x ↦
                rounds-IsExpansion p Q slots (suc k) fuel (round p (slots k) e) o n (ground arith)
          ]
    ]

pub add_slot-Fits :
    (p : Plan) (Q : ℕ → Type 0) (o : Option ℕ) (slot : ℕ → ℕ × ℕ) (slots : List (ℕ × ℕ))
    → ((day : ℕ) → p.first ≤ (slot day).0 → Q (slot day).1)
    → Fits p Q slots
    → Fits p Q (add_slot o slot slots)
add_slot-Fits p Q none slot slots h f = f
add_slot-Fits p Q (some day) slot slots h f = (h day, f)

week_slots-Fits : (p : Plan) (days : List ℤ) (k : ℕ) → Fits p (From p) (week_slots p days k)
unfolding week_slots
week_slots-Fits p [] k = tt
week_slots-Fits p (d ∷ days) k =
    add_slot-Fits p (From p) (day_at (p.first / day_ms + k * (7 * p.interval)) d (weekday p.first))
      (week_slot p) (week_slots p days k) (λ day l. omega arith) (week_slots-Fits p days k)

month_slots-Fits : (p : Plan) (days : List ℤ) (k : ℕ) → Fits p (From p) (month_slots p days k)
unfolding month_slots
month_slots-Fits p [] k = tt
month_slots-Fits p (d ∷ days) k =
    let m = month_of (p.first / day_ms) + k * p.interval in
    add_slot-Fits p (From p) (day_at (month_start m) (snapped d (month_length m)) 1) (month_slot p)
      (month_slots p days k) (λ day l. l) (month_slots-Fits p days k)

empty-IsSound : (p : Plan) (Q : ℕ → Type 0) → IsSound p Q (record { out = []; emitted = 0 })
empty-IsSound p Q = record { kept = tt; counted = omega arith; asked = omega arith }

module _ (p : Plan) where
  daily-IsExpansion : IsExpansion p (From p) (daily_from p 0 p.count [])
  daily-IsExpansion = record {
    each = daily_from-All p 0 p.count [] tt;
    few = (let l = length-daily_from p 0 p.count [] in omega arith);
  }

  bi_weekly-IsExpansion : IsExpansion p (From p) (bi_weekly_from p 0 p.count [])
  bi_weekly-IsExpansion = record {
    each = bi_weekly_from-All p 0 p.count [] tt;
    few = (let l = length-bi_weekly_from p 0 p.count [] in omega arith);
  }

  pub loop-IsExpansion :
      (Q : ℕ → Type 0) (slots : ℕ → List (ℕ × ℕ)) {out : List Occurrence}
      → ((j : ℕ) → Fits p Q (slots j))
      → loop p slots ≡ ok out
      → IsExpansion p Q out
  loop-IsExpansion Q slots o h =
      rounds-IsExpansion p Q slots 0 1001 (record { out = []; emitted = 0 }) o (empty-IsSound p Q) h

  generate-IsExpansion :
      (k : Pattern) (byday bymonth : List ℤ) {out : List Occurrence}
      → 1 ≤ p.count
      → generate p k byday bymonth ≡ ok out
      → IsExpansion p (From p) out
  unfolding generate
  generate-IsExpansion daily byday bymonth {out} c h =
      let q : daily_from p 0 p.count [] ≡ out = ground arith in
      subst (IsExpansion p (From p)) q daily-IsExpansion
  generate-IsExpansion bi_weekly byday bymonth {out} c h =
      let q : bi_weekly_from p 0 p.count [] ≡ out = ground arith in
      subst (IsExpansion p (From p)) q bi_weekly-IsExpansion
  generate-IsExpansion custom byday bymonth {out} c h =
      let q : push p p.first [] ≡ out = ground arith in
      subst (IsExpansion p (From p)) q (record {
        each = push-All p (From p) p.first [] (omega arith) tt;
        few = (let l = length-push p p.first [] in omega arith);
      })
  generate-IsExpansion weekly byday bymonth c h =
      loop-IsExpansion (From p) (week_slots p (days_or (sort_days byday) (weekday p.first)))
        (week_slots-Fits p (days_or (sort_days byday) (weekday p.first))) h
  generate-IsExpansion monthly byday bymonth c h =
      loop-IsExpansion (From p) (month_slots p (days_or bymonth (day_of_month p.first)))
        (month_slots-Fits p (days_or bymonth (day_of_month p.first))) h

pub count_of-bounds :
    (c : Option Whole) (b : Bool) → (1 ≤ count_of c b) × (count_of c b ≤ max_occurrences)
unfolding count_of
count_of-bounds c b = (ground arith, ground arith)

-- What `expand` states of a rule, for a pattern.
pub expand_pattern-IsExpansion :
    (dto : CreateRecurringDto) (first last : ℕ) (out : List Occurrence)
    → expand_pattern dto first last ≡ ok out
    → IsExpansion (plan dto first last) (From (plan dto first last)) out
      × (length out ≤ max_occurrences)
unfolding expand_pattern
expand_pattern-IsExpansion dto first last out h =
    elim (Result-cases (generate (plan dto first last) dto.pattern dto.byday dto.bymonth)) [
      | inr (x, e) ↦ absurd (ground arith)
      | inl (o, e) ↦
          let b = count_of-bounds dto.count (is_some dto.until) in
          let g =
            generate-IsExpansion (plan dto first last) dto.pattern dto.byday dto.bymonth b.0 e in
          let n : length o ≤ max_occurrences = (let f = g.few in omega arith) in
          let t = take-all max_occurrences o n in
          let q : o ≡ out = ground arith in
          subst
            (λ x.
              IsExpansion (plan dto first last) (From (plan dto first last)) x
              × (length x ≤ max_occurrences))
            q (g, n)
    ]
