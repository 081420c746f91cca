-- ===== src/Bookings/Recurrence/Daily.antt =====
-- recurrence.service.ts: the daily loop against a filter, and which weekdays the weekly loop keeps.
use booking_system.Base.{
  ℕ, zero, suc, ◌+◌, ◌*◌, ◌/◌, ◌%◌, ◌<◌, ◌≤◌, ◌≡◌, refl, sym, ap, ◌∙◌, inl, inr, Bool, true, not,
  ◌||◌, List, [], ◌∷◌, ◌++◌, map, any, keep, take, take-all, ok, arith, Bool-cases, All, Option,
  is_some, Result-cases, All-take, All-imp, subst,
}
use mathlib.Core.List.{append-nil, append_assoc}
use booking_system.Common.Tz.{day_ms}
use booking_system.Bookings.Recurrence.{
  Plan, Occurrence, daily, weekly, CreateRecurringDto, is_instant, past_until, occurrence, push,
  daily_start, daily_from, ℤ, day_at, week_slot, week_slots, generate, plan, expand_pattern, loop,
  days_or, sort_days, weekday, max_occurrences,
}
use booking_system.Bookings.Recurrence.Bounds.{
  IsOccurrence, Fits, add_slot-Fits, loop-IsExpansion, length-daily_from, count_of-bounds,
}

-- A date that `push` keeps.
unfoldable pub accepted : Plan → ℕ → Bool
accepted p s = not (any (is_instant s) p.ex_dates || past_until p.until s)

-- The dates of `n` turns from turn `i`.
unfoldable pub daily_dates : Plan → ℕ → ℕ → List ℕ
daily_dates p i zero = []
daily_dates p i (suc n) = daily_start p i ∷ daily_dates p (suc i) n

past_until_mono :
    (u : Option (Option ℕ)) (s t : ℕ) → s ≤ t → past_until u s ≡ true → past_until u t ≡ true
past_until_mono u s t le h = ground arith

-- Past the end date, no later date is kept either.
keep-past :
    (p : Plan) (s i n : ℕ)
    → s ≤ daily_start p i
    → past_until p.until s ≡ true
    → keep (accepted p) (daily_dates p i n) ≡ []
unfolding daily_dates accepted
keep-past p s i zero le h = refl
keep-past p s i (suc n) le h =
    let e = past_until_mono p.until s (daily_start p i) le h in
    let r = keep-past p s (suc i) n (omega arith) h in ground arith

push-accepted :
    (p : Plan) (s : ℕ) (out : List Occurrence)
    → push p s out ≡ out ++ map (occurrence p) (keep (accepted p) (s ∷ []))
unfolding push accepted
push-accepted p s out = elim (Bool-cases (any (is_instant s) p.ex_dates || past_until p.until s)) [
  | inl e ↦ rw (e, append-nil) refl
  | inr e ↦ rw e refl
]

keep-cons :
    (p : Plan) (s : ℕ) (ss : List ℕ) (out : List Occurrence)
    → push p s out ++ map (occurrence p) (keep (accepted p) ss)
      ≡ out ++ map (occurrence p) (keep (accepted p) (s ∷ ss))
keep-cons p s ss out = elim (Bool-cases (accepted p s)) [
  | inl e ↦ rw (push-accepted p s out, e, append_assoc) refl
  | inr e ↦ rw (push-accepted p s out, e, append_assoc) refl
]

daily_from-keep :
    (p : Plan) (i n : ℕ) (out : List Occurrence)
    → daily_from p i n out ≡ out ++ map (occurrence p) (keep (accepted p) (daily_dates p i n))
unfolding daily_from daily_dates
daily_from-keep p i zero out = sym (append-nil out)
daily_from-keep p i (suc n) out =
    let s = daily_start p i in
    let later = daily_dates p (suc i) n in
    elim (Bool-cases (past_until p.until s)) [
      | inl e ↦
          let k = keep-past p s (suc i) n (omega arith) e in
          rw e (
            sym (append-nil (push p s out))
            ∙ ap (λ (z : List ℕ). push p s out ++ map (occurrence p) z) (sym k)
            ∙ keep-cons p s later out)
      | inr e ↦ rw e (daily_from-keep p (suc i) n (push p s out) ∙ keep-cons p s later out)
    ]

-- A daily expansion, whose loop stops at the first date past the end, is the filter of all the dates
-- first start + i × interval days, for i below the count, by the excluded dates and the end date.
pub expand_pattern-daily :
    (dto : CreateRecurringDto) (first last : ℕ)
    → dto.pattern ≡ daily
    → let p = plan dto first last in
      expand_pattern dto first last
      ≡ ok (map (occurrence p) (keep (accepted p) (daily_dates p 0 p.count)))
unfolding expand_pattern generate
expand_pattern-daily dto first last d =
    let p = plan dto first last in
    let l = length-daily_from p 0 p.count [] in
    let c = count_of-bounds dto.count (is_some dto.until) in
    let t = take-all max_occurrences (daily_from p 0 p.count []) (omega arith) in
    rw d (ap ok (t ∙ daily_from-keep p 0 p.count []))

-- A later day than the first start's.
abbrev pub OnLaterDay : Plan → ℕ → Type 0
OnLaterDay p s = p.first / day_ms < s / day_ms

week_slots-Fits :
    (p : Plan) (days : List ℤ) (k : ℕ)
    → 0 < p.first % day_ms
    → Fits p (OnLaterDay p) (week_slots p days k)
unfolding week_slots
week_slots-Fits p [] k h = tt
week_slots-Fits p (d ∷ days) k h =
    add_slot-Fits p (OnLaterDay p)
      (day_at (p.first / day_ms + k * (7 * p.interval)) d (weekday p.first)) (week_slot p)
      (week_slots p days k) (λ day l. omega arith) (week_slots-Fits p days k h)

-- Where the first start is not at midnight, a weekly expansion has no occurrence on the day of the first
-- start, whatever weekdays are asked for: each of its occurrences is on a later day.
pub expand_pattern-weekly_later :
    (dto : CreateRecurringDto) (first last : ℕ) (out : List Occurrence)
    → dto.pattern ≡ weekly
    → 0 < first % day_ms
    → expand_pattern dto first last ≡ ok out
    → All (λ (o : Occurrence). first / day_ms < o.start / day_ms) out
unfolding expand_pattern generate
expand_pattern-weekly_later dto first last out w h e =
    let p = plan dto first last in
    let slots = week_slots p (days_or (sort_days dto.byday) (weekday first)) in
    elim (Result-cases (loop p slots)) [
      | inr (x, f) ↦ absurd (let e' = rw w at e in ground arith)
      | inl (o, f) ↦
          let e' = rw w at e in
          let g =
            loop-IsExpansion p (OnLaterDay p) slots
              (λ j. week_slots-Fits p (days_or (sort_days dto.byday) (weekday first)) j h) f in
          let q : take max_occurrences o ≡ out = ground arith in
          subst (All (λ (o : Occurrence). first / day_ms < o.start / day_ms)) q (
            All-take (λ (o : Occurrence). first / day_ms < o.start / day_ms) max_occurrences o
              (All-imp (IsOccurrence p (OnLaterDay p))
                (λ (o : Occurrence). first / day_ms < o.start / day_ms) o (λ a i. i.placed) g.each))
    ]
