-- ===== src/Common/Tz.antt =====
-- common/tz.ts: wall clocks of an IANA zone and UTC instants.
-- An instant is the milliseconds since 1970-01-01T00:00Z; an invalid `Date` is `none`. A calendar
-- date string is its day number since 1970-01-01, which has the same order for years of four
-- digits. `Intl.DateTimeFormat` is a parameter: `none` stands for the exception that an unknown
-- zone raises.
pub mod Round
use booking_system.Base.{
  ℕ, ◌+◌, ◌-◌, ◌*◌, ◌/◌, ◌%◌, Bool, ◌&&◌, Option, none, some, [], ◌∷◌, Text, codes, trim, is_digit,
  if◌then◌else◌, ◌==◌, ltb, leb, or_else,
}

abbrev pub day_ms : ℕ
day_ms = 86400000

abbrev pub minute_ms : ℕ
minute_ms = 60000

-- The fields that `formatToParts` gives for an instant. Some runtimes give 24 for midnight.
pub record Parts : Type 0 where
  pub weekday : Option ℕ
  pub date : ℕ
  pub hour : ℕ
  pub minute : ℕ
  pub second : ℕ

pub record WallClock : Type 0 where
  pub weekday : ℕ
  pub minutes : ℕ
  pub hhmm : Text
  pub date : ℕ

abbrev default_tz : Text
default_tz = codes "Asia/Hong_Kong"

-- `timeZone || DEFAULT_TZ`
unfoldable pub zone_or_default : Option Text → Text
zone_or_default none = default_tz
zone_or_default (some []) = default_tz
zone_or_default (some (c ∷ s)) = c ∷ s

abbrev pub clock_hour : ℕ → ℕ
clock_hour h = if h == 24 then 0 else h

-- `${pad(hour)}:${pad(minute)}` of numbers below 100.
abbrev clock_text : ℕ → ℕ → Text
clock_text h m = (48 + h / 10) ∷ (48 + h % 10) ∷ 58 ∷ (48 + m / 10) ∷ (48 + m % 10) ∷ []

-- The reading of an instant with `getUTCHours` and its fellows.
abbrev utc_clock : ℕ → WallClock
utc_clock t = record {
  weekday = (t / day_ms + 4) % 7;
  minutes = t % day_ms / minute_ms;
  hhmm = clock_text (t % day_ms / minute_ms / 60) (t % day_ms / minute_ms % 60);
  date = t / day_ms;
}

abbrev parts_clock : ℕ → Parts → WallClock
parts_clock t p = record {
  weekday = or_else p.weekday ((t / day_ms + 4) % 7);
  minutes = clock_hour p.hour * 60 + p.minute;
  hhmm = clock_text (clock_hour p.hour) p.minute;
  date = p.date;
}

abbrev two_digits : ℕ → ℕ → ℕ
two_digits a b = (a - 48) * 10 + (b - 48)

-- The time that `Date` reads from `T${time}:00.000Z`: two digits each, at most 24:00.
unfoldable pub iso_minutes : Text → Option ℕ
iso_minutes (a ∷ b ∷ c ∷ d ∷ e ∷ []) =
    if is_digit a
      && is_digit b
      && c == 58
      && is_digit d
      && is_digit e
      && ltb (two_digits d e) 60
      && leb (two_digits a b * 60 + two_digits d e) 1440
    then some (two_digits a b * 60 + two_digits d e)
    else none
iso_minutes s = none

-- `/^(\d{1,2}):(\d{2})$/` on the trimmed text.
unfoldable pub match_minutes : Text → Option ℕ
match_minutes (a ∷ c ∷ d ∷ e ∷ []) =
    if is_digit a && c == 58 && is_digit d && is_digit e && leb (two_digits d e) 59
    then some ((a - 48) * 60 + two_digits d e)
    else none
match_minutes (a ∷ b ∷ c ∷ d ∷ e ∷ []) =
    if is_digit a
      && is_digit b
      && c == 58
      && is_digit d
      && is_digit e
      && leb (two_digits a b) 23
      && leb (two_digits d e) 59
    then some (two_digits a b * 60 + two_digits d e)
    else none
match_minutes s = none

unfoldable pub hhmm_to_minutes : Text → Option ℕ
unfolding match_minutes
hhmm_to_minutes v = match_minutes (trim v)

-- The instant of a wall clock that the zone shows as `p` when it is read as UTC: `asUtc - offset`.
abbrev shifted : ℕ → Parts → ℕ
shifted as_utc p =
    as_utc
    + as_utc
    - (p.date * day_ms + clock_hour p.hour * 3600000 + p.minute * minute_ms + p.second * 1000)

-- The reading of an instant by what the zone shows; a plain UTC reading for an unknown zone.
abbrev clock_of : ℕ → Option Parts → WallClock
clock_of t none = utc_clock t
clock_of t (some p) = parts_clock t p

-- The instant of a clock read as UTC, by what the zone shows for that.
abbrev instant_of : ℕ → Option Parts → ℕ
instant_of as_utc none = as_utc
instant_of as_utc (some p) = shifted as_utc p

module _ (format_to_parts : Text → ℕ → Option Parts) where
  unfoldable pub utc_to_zoned_wall_clock : ℕ → Option Text → WallClock
  utc_to_zoned_wall_clock t tz = clock_of t (format_to_parts (zone_or_default tz) t)

  abbrev encoded : ℕ → Option Text → Option ℕ → Option ℕ
  encoded date tz none = none
  encoded date tz (some m) =
      let as_utc : ℕ = date * day_ms + m * minute_ms in
      some (instant_of as_utc (format_to_parts (zone_or_default tz) as_utc))

  unfoldable pub zoned_time_to_utc : ℕ → Text → Option Text → Option ℕ
  zoned_time_to_utc date time tz = encoded date tz (iso_minutes time)
