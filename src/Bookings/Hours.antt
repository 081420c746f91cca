-- ===== src/Bookings/Hours.antt =====
-- bookings.service.ts: operating hours of a room and all-day requests.
use booking_system.Base.{
  ℕ, ◌+◌, ◌*◌, Bool, true, false, not, ◌&&◌, ◌||◌, Option, none, some, Text, if◌then◌else◌, ◌==◌,
  ltb, leb, Result, ok, err, ◌>>=◌, or_throw, conflict, closed_day, runs_overnight, outside_hours,
}
use booking_system.Common.Tz.{
  Parts, WallClock, hhmm_to_minutes, utc_to_zoned_wall_clock, zoned_time_to_utc,
}
use booking_system.Common.OperatingHours.{DayWindow, OperatingHours, window_for_weekday}

-- The window that `mapAllDayToOperatingHours` returns.
pub record Mapped : Type 0 where
  pub start : Option ℕ
  pub end : Option ℕ
  pub was_all_day : Bool

-- The whole local day: from midnight to 23:59 or to a midnight of another date.
unfoldable pub whole_day : WallClock → WallClock → Bool
whole_day s e =
    s.minutes == 0
    && ((not (e.date == s.date) && e.minutes == 0)
        || (e.date == s.date && leb (23 * 60 + 59) e.minutes))

-- A schedule whose times cannot be read does not block.
unfoldable pub inside_window : WallClock → WallClock → Option ℕ → Option ℕ → Result (Unit {0})
inside_window s e (some opens) (some closes) =
    if leb closes opens
    then ok tt
    else if not (e.date == s.date)
    then err (conflict runs_overnight)
    else if ltb s.minutes opens || ltb closes e.minutes
    then err (conflict outside_hours)
    else ok tt
inside_window s e _ _ = ok tt

module _ (format_to_parts : Text → ℕ → Option Parts) where
  unfoldable pub assert_within_operating_hours :
      Option Text → Option OperatingHours → ℕ → ℕ → Result (Unit {0})
  unfolding inside_window
  assert_within_operating_hours tz none start end = ok tt
  assert_within_operating_hours tz (some oh) start end =
      let s : WallClock = utc_to_zoned_wall_clock format_to_parts start tz in
      let e : WallClock = utc_to_zoned_wall_clock format_to_parts end tz in
      or_throw (window_for_weekday oh s.weekday) (conflict closed_day) >>= λ w.
      inside_window s e (hhmm_to_minutes w.opens) (hhmm_to_minutes w.closes)

  -- The window of the start's day, where the room is open then.
  abbrev clamp : Option Text → ℕ → Option DayWindow → ℕ → ℕ → Mapped
  clamp tz date none start end = record { start = some start; end = some end; was_all_day = true }
  clamp tz date (some w) start end = record {
    start = zoned_time_to_utc format_to_parts date w.opens tz;
    end = zoned_time_to_utc format_to_parts date w.closes tz;
    was_all_day = true;
  }

  abbrev clamp_hours : Option Text → WallClock → Option OperatingHours → ℕ → ℕ → Mapped
  clamp_hours tz s none start end = record {
    start = some start;
    end = some end;
    was_all_day = true;
  }
  clamp_hours tz s (some oh) start end = clamp tz s.date (window_for_weekday oh s.weekday) start end

  unfoldable pub map_all_day_to_operating_hours :
      Option Text → Option OperatingHours → ℕ → ℕ → Mapped
  unfolding whole_day
  map_all_day_to_operating_hours tz oh start end =
      let s : WallClock = utc_to_zoned_wall_clock format_to_parts start tz in
      let e : WallClock = utc_to_zoned_wall_clock format_to_parts end tz in
      if whole_day s e
      then clamp_hours tz s oh start end
      else record { start = some start; end = some end; was_all_day = false }
