-- ===== src/Bookings/Recurrence/Rule.antt =====
-- recurrence.service.ts: `expandRRule`, which reads the RFC 5545 text, and `expand` with it.
-- `date_parse` is `new Date(s)` on a text that is not of the form of RFC 5545.
use booking_system.Base.{
  ℕ, suc, ◌+◌, ◌-◌, ◌*◌, max, min, ◌&&◌, Option, none, some, or_else, List, [], ◌∷◌, map, Text,
  codes, text_eq, trim, is_empty, all, keep, to_upper_case, split, is_digit, read_digits,
  if◌then◌else◌, ◌==◌, Result, ok, ◌≡◌, refl, true, arith, Bool-cases, inl, inr,
}
use booking_system.Common.Tz.{day_ms}
use booking_system.Common.Calendar.{month_start}
use booking_system.Bookings.Recurrence.{
  ℤ, pos, negsuc, is_natural, Whole, nan, minus, plus, Pattern, daily, weekly, monthly,
  CreateRecurringDto, Occurrence, max_occurrences, expand_pattern, Plan, plan,
}
use booking_system.Bookings.Recurrence.Ends.{HasNatural, expand_pattern-eq-ok}

-- `rrule.replace(/^RRULE:/i, '')`
unfoldable pub drop_prefix : Text → Text
unfolding to_upper_case text_eq
drop_prefix (a ∷ b ∷ c ∷ d ∷ e ∷ f ∷ s) =
    if text_eq (to_upper_case (a ∷ b ∷ c ∷ d ∷ e ∷ f ∷ [])) (codes "RRULE:")
    then s
    else a ∷ b ∷ c ∷ d ∷ e ∷ f ∷ s
drop_prefix s = s

-- `parts[k]` after the pairs were stored in order: the last one with a name and a value.
unfoldable pub part : Text → List (List Text) → Option Text
unfolding to_upper_case text_eq
part key [] = none
part key (((x ∷ k) ∷ (y ∷ v) ∷ more) ∷ ps) =
    let later = part key ps in
    if text_eq (to_upper_case (x ∷ k)) key then some (or_else later (y ∷ v)) else later
part key (p ∷ ps) = part key ps

unfoldable pub parse_unsigned : (ℕ → Whole) → Text → Whole
unfolding read_digits
parse_unsigned sign [] = nan
parse_unsigned sign (c ∷ s) = if is_digit c then sign (read_digits 0 (c ∷ s)) else nan

-- `parseInt(s, 10)`
unfoldable pub parse_int : Text → Whole
unfolding trim parse_unsigned
parse_int s = signed (trim s)
  where
    signed : Text → Whole
    signed [] = nan
    signed (c ∷ t) =
        if c == 45
        then parse_unsigned minus t
        else if c == 43
        then parse_unsigned plus t
        else parse_unsigned plus (c ∷ t)

-- `Math.max(1, n)`
abbrev pub at_least_one : Whole → Whole
at_least_one nan = nan
at_least_one (minus n) = plus 1
at_least_one (plus n) = plus (max 1 n)

-- `Math.min(n || MAX_OCCURRENCES, MAX_OCCURRENCES)`
abbrev pub capped : Whole → Whole
capped (plus (suc n)) = plus (min (suc n) max_occurrences)
capped (minus (suc n)) = minus (suc n)
capped _ = plus max_occurrences

abbrev weekday_names : List Text
weekday_names =
    codes "SU" ∷ codes "MO" ∷ codes "TU" ∷ codes "WE" ∷ codes "TH" ∷ codes "FR" ∷ codes "SA" ∷ []

-- `names.indexOf(s)`, counted from `i`.
unfoldable pub index_of : ℕ → List Text → Text → ℤ
unfolding text_eq
index_of i [] s = negsuc 0
index_of i (n ∷ ns) s = let later = index_of (suc i) ns s in if text_eq n s then pos i else later

unfoldable pub weekday_code : Text → ℤ
unfolding to_upper_case index_of
weekday_code s = index_of 0 weekday_names (to_upper_case s)

-- The codes of BYDAY, `.filter((d) => d >= 0)`.
unfoldable pub weekday_codes : List Text → List ℤ
unfolding weekday_code
weekday_codes ds = keep is_natural (map weekday_code ds)

keep-natural : (ds : List ℤ) → all is_natural (keep is_natural ds) ≡ true
keep-natural [] = refl
keep-natural (d ∷ ds) = elim (Bool-cases (is_natural d)) [
  | inl e ↦ let r = keep-natural ds in rw e (ground arith)
  | inr e ↦ rw e (keep-natural ds)
]

natural-HasNatural : (ds : List ℤ) → all is_natural ds ≡ true → HasNatural ds
natural-HasNatural [] h = refl
natural-HasNatural (d ∷ ds) h = ground arith

-- `Date.UTC`, the month from 1; what lies before 1970 is the epoch.
unfoldable pub utc : ℕ → ℕ → ℕ → ℕ → ℕ
utc y mo d seconds = (month_start (y * 12 + mo - 23641) + d - 1) * day_ms + seconds * 1000

abbrev number : Text → ℕ
number s = read_digits 0 s

-- `YYYYMMDD`, alone or with `THHMMSSZ`.
unfoldable pub rfc_until : Text → Option ℕ
unfolding read_digits utc
rfc_until (a ∷ b ∷ c ∷ d ∷ e ∷ f ∷ g ∷ h ∷ []) =
    if all is_digit (a ∷ b ∷ c ∷ d ∷ e ∷ f ∷ g ∷ h ∷ [])
    then some (utc (number (a ∷ b ∷ c ∷ d ∷ [])) (number (e ∷ f ∷ [])) (number (g ∷ h ∷ [])) 0)
    else none
rfc_until (a ∷ b ∷ c ∷ d ∷ e ∷ f ∷ g ∷ h ∷ t ∷ i ∷ j ∷ k ∷ l ∷ m ∷ n ∷ z ∷ []) =
    if all is_digit (a ∷ b ∷ c ∷ d ∷ e ∷ f ∷ g ∷ h ∷ i ∷ j ∷ k ∷ l ∷ m ∷ n ∷ [])
      && t == 84
      && z == 90
    then some (
        utc (number (a ∷ b ∷ c ∷ d ∷ [])) (number (e ∷ f ∷ [])) (number (g ∷ h ∷ []))
          (number (i ∷ j ∷ []) * 3600 + number (k ∷ l ∷ []) * 60 + number (m ∷ n ∷ [])))
    else none
rfc_until s = none

abbrev pub freq_pattern : Text → Pattern
freq_pattern freq =
    if text_eq freq (codes "WEEKLY")
    then weekly
    else if text_eq freq (codes "MONTHLY")
    then monthly
    else daily

module _ (date_parse : Text → Option ℕ) where
  unfoldable pub parse_until : Text → Option ℕ
  unfolding rfc_until
  parse_until s = elim (rfc_until s) [ some t ↦ some t | none ↦ date_parse s ]

  abbrev until_part : Option Text → Option (Option ℕ)
  until_part none = none
  until_part (some s) = some (parse_until s)

  abbrev byday_part : Option Text → List ℤ
  byday_part none = []
  byday_part (some s) = weekday_codes (split 44 s)

  byday_part-HasNatural : (o : Option Text) → HasNatural (byday_part o)
  unfolding weekday_codes
  byday_part-HasNatural none = refl
  byday_part-HasNatural (some s) =
      natural-HasNatural (weekday_codes (split 44 s)) (keep-natural (map weekday_code (split 44 s)))

  -- The request that `expandRRule` hands back to `expand`, by the pairs of the rule.
  unfoldable pub rule_dto : CreateRecurringDto → List (List Text) → CreateRecurringDto
  unfolding parse_until weekday_codes split part to_upper_case text_eq parse_int
  rule_dto dto parts = record dto {
    pattern = freq_pattern (to_upper_case (or_else (part (codes "FREQ") parts) (codes "DAILY")));
    interval =
        some (at_least_one (parse_int (or_else (part (codes "INTERVAL") parts) (codes "1"))));
    count = some (capped (parse_int (or_else (part (codes "COUNT") parts) (codes "0"))));
    until = until_part (part (codes "UNTIL") parts);
    byday = byday_part (part (codes "BYDAY") parts);
    bymonth = [];
    rrule = [];
  }

  -- `rrule && rrule.trim()` chooses the rule over the pattern.
  unfoldable pub effective : CreateRecurringDto → CreateRecurringDto
  unfolding rule_dto drop_prefix split
  effective dto =
      if is_empty (trim dto.rrule)
      then dto
      else rule_dto dto (map (split 61) (split 59 (drop_prefix dto.rrule)))

  unfoldable pub expand : CreateRecurringDto → ℕ → ℕ → Result (List Occurrence)
  expand dto first last = expand_pattern (effective dto) first last

  -- The plan of a request, once its rule is read.
  abbrev pub planned : CreateRecurringDto → ℕ → ℕ → Plan
  planned dto first last = plan (effective dto) first last

  rule-HasNatural :
      (dto : CreateRecurringDto) (parts : List (List Text))
      → HasNatural (rule_dto dto parts).byday × HasNatural (rule_dto dto parts).bymonth
  unfolding rule_dto
  rule-HasNatural dto parts = (byday_part-HasNatural (part (codes "BYDAY") parts), refl)

  effective-HasNatural :
      (dto : CreateRecurringDto)
      → HasNatural dto.byday
      → HasNatural dto.bymonth
      → HasNatural (effective dto).byday × HasNatural (effective dto).bymonth
  unfolding effective
  effective-HasNatural dto b m = elim (Bool-cases (is_empty (trim dto.rrule))) [
    | inl e ↦ rw e (b, m)
    | inr e ↦ rw e (rule-HasNatural dto (map (split 61) (split 59 (drop_prefix dto.rrule))))
  ]

  -- Where the weekdays and the month days of the request are none or some of them is not negative, an expansion
  -- returns, whatever the rule text, the pattern, the other days, the excluded dates and the end date: the loops
  -- end before the guard of 1000 iterations throws.
  pub expand-eq-ok :
      (dto : CreateRecurringDto) (first last : ℕ)
      → HasNatural dto.byday
      → HasNatural dto.bymonth
      → (out : List Occurrence) × (expand dto first last ≡ ok out)
  unfolding expand
  expand-eq-ok dto first last b m =
      let (b', m') = effective-HasNatural dto b m in
      expand_pattern-eq-ok (effective dto) first last b' m'
