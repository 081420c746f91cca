-- ===== src/Bookings/Recurrence.antt =====
-- recurrence.service.ts: `expand`, which lists the occurrences of a series.
-- An absent field is `none`; an instant that is an invalid date is `none` within it.
pub mod Rule
pub mod Bounds
pub mod Daily
pub mod Ends
pub mod Refused
pub mod Series
pub mod Safety
pub mod Accounts
pub mod Cancelled
pub mod Edit
pub mod EditSafety
pub mod Clock
use booking_system.Base.{
  ℕ, zero, suc, ◌+◌, ◌-◌, ◌*◌, ◌/◌, ◌%◌, min, max, Bool, true, false, ◌||◌, ◌&&◌, Option, none,
  some, is_some, or_else, List, [], ◌∷◌, ◌++◌, map, Text, is_empty, any, take, length,
  if◌then◌else◌, ◌==◌, ltb, leb, Result, ok, err, ◌>>=◌, bad_request, too_restrictive,
}
use booking_system.Common.Tz.{day_ms, minute_ms}
use booking_system.Common.Calendar.{month_length, month_start, month_of}
use booking_system.Store.Booking.{Answers}

-- modules/bookings/recurrence.entity.ts
pub data Pattern : Type 0 where
  daily weekly bi_weekly monthly custom : Pattern

-- A whole number of JavaScript, or NaN.
pub data Whole : Type 0 where
  nan : Whole
  minus : ℕ → Whole
  plus : ℕ → Whole

-- A whole number; `negsuc n` is -(n + 1).
pub data ℤ : Type 0 where
  pos : ℕ → ℤ
  negsuc : ℕ → ℤ

-- `d >= 0`
abbrev pub is_natural : ℤ → Bool
is_natural (pos d) = true
is_natural (negsuc d) = false

pub record CreateRecurringDto : Type 0 where
  pub resource_id : ℕ
  pub first_start : Option ℕ
  pub first_end : Option ℕ
  pub pattern : Pattern
  pub interval : Option Whole
  pub count : Option Whole
  pub until : Option (Option ℕ)
  pub byday : List ℤ
  pub bymonth : List ℤ
  pub ex_dates : List (Option ℕ)
  pub title : Text
  pub meeting_url : Text
  pub is_private : Bool
  pub rrule : Text
  pub custom_field_values : Answers
  pub services : List Text
  pub attendees : List Text
  pub cost_center_code : Option Text

abbrev pub max_occurrences : ℕ
max_occurrences = 100

abbrev pub max_expansion_iterations : ℕ
max_expansion_iterations = 1000

pub record Occurrence : Type 0 where
  pub start : ℕ
  pub end : ℕ

-- `x && x > 0 ? x : 1`
unfoldable pub interval_of : Option Whole → ℕ
interval_of (some (plus (suc n))) = suc n
interval_of _ = 1

-- `count ? Math.max(1, Math.min(count, MAX_OCCURRENCES)) : until ? MAX_OCCURRENCES : 1`
unfoldable pub count_of : Option Whole → Bool → ℕ
count_of (some (plus (suc n))) bounded = max 1 (min (suc n) max_occurrences)
count_of (some (minus (suc n))) bounded = 1
count_of _ bounded = if bounded then max_occurrences else 1

-- What the loops read of the request.
pub record Plan : Type 0 where
  pub first : ℕ
  pub duration : ℕ
  pub interval : ℕ
  pub count : ℕ
  pub until : Option (Option ℕ)
  pub ex_dates : List (Option ℕ)

abbrev pub is_instant : ℕ → Option ℕ → Bool
is_instant s none = false
is_instant s (some t) = s == t

-- `until && s > until`; no instant is after an invalid date.
abbrev pub past_until : Option (Option ℕ) → ℕ → Bool
past_until (some (some u)) s = ltb u s
past_until _ s = false

abbrev pub occurrence : Plan → ℕ → Occurrence
occurrence p s = record { start = s; end = s + p.duration }

unfoldable pub push : Plan → ℕ → List Occurrence → List Occurrence
push p s out =
    if any (is_instant s) p.ex_dates || past_until p.until s
    then out
    else out ++ (occurrence p s ∷ [])

-- `addDays(firstStart, i * interval)`
abbrev pub daily_start : Plan → ℕ → ℕ
daily_start p i = p.first + i * p.interval * day_ms

-- The loop of 'daily', with `n` turns left.
unfoldable pub daily_from : Plan → ℕ → ℕ → List Occurrence → List Occurrence
daily_from p i zero out = out
daily_from p i (suc n) out =
    let pushed = push p (daily_start p i) out in
    let rest = daily_from p (suc i) n pushed in
    if past_until p.until (daily_start p i) then pushed else rest

unfoldable pub bi_weekly_from : Plan → ℕ → ℕ → List Occurrence → List Occurrence
bi_weekly_from p i zero out = out
bi_weekly_from p i (suc n) out =
    bi_weekly_from p (suc i) n (push p (p.first + i * 14 * p.interval * day_ms) out)

-- What the weekly and the monthly loop carry.
pub record Emission : Type 0 where
  pub out : List Occurrence
  pub emitted : ℕ

-- One date of a round: a candidate before `firstStart` is passed over; `true` leaves the round.
unfoldable pub emit : Plan → ℕ × ℕ → Emission → Emission × Bool
emit p (candidate, s) e =
    if ltb candidate p.first
    then (e, false)
    else if past_until p.until s
    then (record e { emitted = p.count }, true)
    else (record { out = push p s e.out; emitted = suc e.emitted }, leb p.count (suc e.emitted))

unfoldable pub round : Plan → List (ℕ × ℕ) → Emission → Emission
round p [] e = e
round p (slot ∷ slots) e =
    let (e', leaves) = emit p slot e in let rest = round p slots e' in if leaves then e' else rest

-- `while (emitted < count)` with the guard, which allows as many more rounds as `fuel`.
unfoldable pub rounds : Plan → (ℕ → List (ℕ × ℕ)) → ℕ → ℕ → Emission → Result (List Occurrence)
rounds p slots k zero e =
    if ltb e.emitted p.count then err (bad_request too_restrictive) else ok e.out
rounds p slots k (suc fuel) e = elim (ltb e.emitted p.count) [
  | false ↦ ok e.out
  | true ↦ elim (ltb max_occurrences (length (round p (slots k) e).out)) [
    | true ↦ ok (round p (slots k) e).out
    | false ↦ rounds p slots (suc k) fuel (round p (slots k) e)
  ]
]

-- `guard++ > MAX_EXPANSION_ITERATIONS` throws before round number 1001, from 0.
abbrev pub loop : Plan → (ℕ → List (ℕ × ℕ)) → Result (List Occurrence)
loop p slots = rounds p slots 0 (max_expansion_iterations + 1) (record { out = []; emitted = 0 })

abbrev pub weekday : ℕ → ℕ
weekday t = (t / day_ms + 4) % 7

-- The day n + z - b; `none` where it lies before 1970.
abbrev pub day_at : ℕ → ℤ → ℕ → Option ℕ
day_at n (pos d) b = if ltb (n + d) b then none else some (n + d - b)
day_at n (negsuc d) b = if ltb n (suc d + b) then none else some (n - (suc d + b))

-- A candidate before 1970 is before `firstStart`, and passed over.
abbrev pub add_slot : Option ℕ → (ℕ → ℕ × ℕ) → List (ℕ × ℕ) → List (ℕ × ℕ)
add_slot none slot slots = slots
add_slot (some day) slot slots = slot day ∷ slots

-- A candidate at midnight, and at the hour and minute of `firstStart`.
abbrev pub week_slot : Plan → ℕ → ℕ × ℕ
week_slot p day = (day * day_ms, day * day_ms + p.first % day_ms / minute_ms * minute_ms)

-- The candidates of week `k`, whose weekdays are counted from `startOfWeek`, the Sunday before.
unfoldable pub week_slots : Plan → List ℤ → ℕ → List (ℕ × ℕ)
week_slots p [] k = []
week_slots p (wd ∷ days) k =
    add_slot (day_at (p.first / day_ms + k * (7 * p.interval)) wd (weekday p.first)) (week_slot p)
      (week_slots p days k)

-- `Math.min(dom, maxDom)`
abbrev pub snapped : ℤ → ℕ → ℤ
snapped (pos d) last = pos (min d last)
snapped (negsuc d) last = negsuc d

-- A candidate at the time of `firstStart`.
abbrev pub month_slot : Plan → ℕ → ℕ × ℕ
month_slot p day = (day * day_ms + p.first % day_ms, day * day_ms + p.first % day_ms)

-- The days of the month `k` rounds on; day 0 is the day before its first, and -1 the one before.
unfoldable pub month_slots : Plan → List ℤ → ℕ → List (ℕ × ℕ)
month_slots p [] k = []
month_slots p (dom ∷ days) k =
    let m = month_of (p.first / day_ms) + k * p.interval in
    add_slot (day_at (month_start m) (snapped dom (month_length m)) 1) (month_slot p)
      (month_slots p days k)

-- The last `fuel` digits of a number, without leading zeros.
abbrev digits : ℕ → ℕ → Text
digits zero n = []
digits (suc fuel) n =
    let rest = digits fuel (n / 10) in
    if ltb n 10 then (48 + n) ∷ [] else rest ++ ((48 + n % 10) ∷ [])

-- `String(n)`; a whole number of JavaScript has at most 16 digits.
abbrev pub text_of : ℤ → Text
text_of (pos n) = digits 16 n
text_of (negsuc n) = 45 ∷ digits 16 (suc n)

abbrev pub text_leb : Text → Text → Bool
text_leb [] t = true
text_leb (c ∷ s) [] = false
text_leb (c ∷ s) (d ∷ t) = ltb c d || (c == d && text_leb s t)

abbrev pub insert_day : ℤ → List ℤ → List ℤ
insert_day d [] = d ∷ []
insert_day d (x ∷ xs) = if text_leb (text_of d) (text_of x) then d ∷ x ∷ xs else x ∷ insert_day d xs

-- `[...byday].sort()`, by the text of the numbers.
unfoldable pub sort_days : List ℤ → List ℤ
sort_days [] = []
sort_days (d ∷ ds) = insert_day d (sort_days ds)

-- `xs && xs.length ? xs : [d]`
abbrev pub days_or : List ℤ → ℕ → List ℤ
days_or [] d = pos d ∷ []
days_or (x ∷ xs) d = x ∷ xs

-- `firstStart.getDate()`
abbrev pub day_of_month : ℕ → ℕ
day_of_month t = t / day_ms - month_start (month_of (t / day_ms)) + 1

unfoldable pub generate : Plan → Pattern → List ℤ → List ℤ → Result (List Occurrence)
generate p daily byday bymonth = ok (daily_from p 0 p.count [])
generate p weekly byday bymonth =
    loop p (week_slots p (days_or (sort_days byday) (weekday p.first)))
generate p bi_weekly byday bymonth = ok (bi_weekly_from p 0 p.count [])
generate p monthly byday bymonth = loop p (month_slots p (days_or bymonth (day_of_month p.first)))
generate p custom byday bymonth = ok (push p p.first [])

abbrev pub plan : CreateRecurringDto → ℕ → ℕ → Plan
plan dto first last = record {
  first = first;
  duration = last - first;
  interval = interval_of dto.interval;
  count = count_of dto.count (is_some dto.until);
  until = dto.until;
  ex_dates = dto.ex_dates;
}

-- `expand` of a request without an RRULE.
unfoldable pub expand_pattern : CreateRecurringDto → ℕ → ℕ → Result (List Occurrence)
expand_pattern dto first last =
    generate (plan dto first last) dto.pattern dto.byday dto.bymonth >>= λ out.
    ok (take max_occurrences out)
