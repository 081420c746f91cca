-- ===== src/Common/OperatingHours.antt =====
-- common/operating-hours.ts: per-weekday opening windows.
-- The keys "0" … "6" of `days` are numbers; `null` is `none`.
pub mod Normal
use booking_system.Base.{
  ℕ, zero, suc, ◌+◌, ◌-◌, ◌*◌, Bool, true, false, ◌&&◌, ◌||◌, Option, none, some, List, [], ◌∷◌,
  Text, if◌then◌else◌, ◌==◌, leb, any, is_empty, Result, ok, ◌>>=◌, ◌>>◌, throw_if, or_throw,
  bad_request, open_not_hhmm, close_not_hhmm, close_not_after_open,
}

pub record DayWindow : Type 0 where
  pub opens : Text
  pub closes : Text

abbrev pub Days : Type 0
Days = List (ℕ × Option DayWindow)

pub record OperatingHours : Type 0 where
  pub days : Option Days
  pub opens : Option Text
  pub closes : Option Text

-- `/^([01]\d|2[0-3]):[0-5]\d$/`
unfoldable pub hhmm_to_min : Text → Option ℕ
hhmm_to_min (a ∷ b ∷ c ∷ d ∷ e ∷ []) =
    if ((leb 48 a && leb a 49 && leb 48 b && leb b 57) || (a == 50 && leb 48 b && leb b 51))
      && c == 58
      && leb 48 d
      && leb d 53
      && leb 48 e
      && leb e 57
    then some (((a - 48) * 10 + (b - 48)) * 60 + ((d - 48) * 10 + (e - 48)))
    else none
hhmm_to_min s = none

-- An own property of `days`: the outer `none` is a missing key.
unfoldable pub day_entry : Days → ℕ → Option (Option DayWindow)
day_entry [] k = none
day_entry ((j, w) ∷ days) k = if j == k then some w else day_entry days k

-- A string field that is there and not empty.
abbrev truthy : Option Text → Bool
truthy none = false
truthy (some []) = false
truthy (some (c ∷ s)) = true

abbrev flat : Option (Option DayWindow) → Option DayWindow
flat none = none
flat (some w) = w

abbrev legacy_window : Option Text → Option Text → Option DayWindow
legacy_window (some (a ∷ s)) (some (b ∷ t)) = some (record { opens = a ∷ s; closes = b ∷ t })
legacy_window _ _ = none

unfoldable pub window_for_weekday : OperatingHours → ℕ → Option DayWindow
unfolding day_entry
window_for_weekday oh weekday = elim oh.days [
  | some days ↦ flat (day_entry days weekday)
  | none ↦ legacy_window oh.opens oh.closes
]

abbrev has_times : ℕ × Option DayWindow → Bool
has_times (k, none) = false
has_times (k, some w) =
    (if is_empty w.opens then false else true) && (if is_empty w.closes then false else true)

unfoldable pub has_any_open_day : OperatingHours → Bool
has_any_open_day oh = elim oh.days [
  | some days ↦ any has_times days
  | none ↦ truthy oh.opens && truthy oh.closes
]

unfoldable pub validate_window : DayWindow → Result DayWindow
validate_window w = do
  o ← or_throw (hhmm_to_min w.opens) (bad_request open_not_hhmm)
  c ← or_throw (hhmm_to_min w.closes) (bad_request close_not_hhmm)
  throw_if (leb c o) (bad_request close_not_after_open)
  ok w

-- The body of the loop over the weekdays: a missing or null entry closes the day.
abbrev pub canonical_entry : Option (Option DayWindow) → Result (Option DayWindow)
canonical_entry (some (some w)) = validate_window w >>= λ v. ok (some v)
canonical_entry _ = ok none

-- `for (let wd = 7 - n; wd < 7; wd++)`
unfoldable pub canonical_days : ℕ → Days → Result Days
unfolding day_entry
canonical_days zero source = ok []
canonical_days (suc n) source = do
  w ← canonical_entry (day_entry source (6 - n))
  rest ← canonical_days n source
  ok ((6 - n, w) ∷ rest)

-- `{ 0: win, …, 6: win }`
abbrev every_day : DayWindow → Days
every_day w =
    (0, some w)
    ∷ (1, some w)
    ∷ (2, some w)
    ∷ (3, some w)
    ∷ (4, some w)
    ∷ (5, some w)
    ∷ (6, some w)
    ∷ []

abbrev text_of : Option Text → Text
text_of none = []
text_of (some s) = s

abbrev pub source_days : OperatingHours → Result (Option Days)
source_days oh = elim oh.days [
  | some days ↦ ok (some days)
  | none ↦
      if truthy oh.opens || truthy oh.closes
      then validate_window (record { opens = text_of oh.opens; closes = text_of oh.closes })
        >>= (λ w. ok (some (every_day w)))
      else ok none
]

abbrev pub of_days : Option Days → Result (Option OperatingHours)
of_days none = ok none
of_days (some source) = do
  days ← canonical_days 7 source
  ok (some (record { days = some days; opens = none; closes = none }))

-- `raw` is `none` for null; an input that is no object is outside this type.
unfoldable pub normalize_operating_hours : Option OperatingHours → Result (Option OperatingHours)
unfolding canonical_days validate_window hhmm_to_min
normalize_operating_hours none = ok none
normalize_operating_hours (some input) = do source ← source_days input; of_days source
