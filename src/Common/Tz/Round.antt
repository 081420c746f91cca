-- ===== src/Common/Tz/Round.antt =====
-- common/tz.ts: from an instant to the wall clock and back.
use booking_system.Base.{ℕ, ◌+◌, ◌-◌, ◌*◌, ◌/◌, ◌%◌, ◌<◌, ◌≡◌, refl, ap, Option, some, Text, arith}
use booking_system.Common.Tz.{
  Parts, day_ms, minute_ms, clock_text, clock_hour, parts_clock, iso_minutes, zone_or_default,
  utc_to_zoned_wall_clock, zoned_time_to_utc,
}

-- What `formatToParts` gives where the local clock, in milliseconds since the epoch, is `l`.
abbrev pub parts_of : ℕ → Parts
parts_of l = record {
  weekday = some ((l / day_ms + 4) % 7);
  date = l / day_ms;
  hour = l % day_ms / 3600000;
  minute = l % 3600000 / minute_ms;
  second = l % minute_ms / 1000;
}

-- The text of a clock is read back.
iso_minutes-clock_text :
    (h m : ℕ) → h < 24 → m < 60 → iso_minutes (clock_text h m) ≡ some (h * 60 + m)
unfolding iso_minutes
iso_minutes-clock_text h m a b = ground arith

-- Recomposed from its parts, a clock is itself up to the milliseconds.
parts_sum :
    (l : ℕ)
    → l / day_ms * day_ms
        + clock_hour (l % day_ms / 3600000) * 3600000
        + l % 3600000 / minute_ms * minute_ms
        + l % minute_ms / 1000 * 1000
      ≡ l - l % 1000
parts_sum l =
    let e : clock_hour (l % day_ms / 3600000) ≡ l % day_ms / 3600000 = ground arith in
    rw e (omega arith)

clock_sum :
    (l : ℕ)
    → l / day_ms * day_ms
        + (clock_hour (l % day_ms / 3600000) * 60 + l % 3600000 / minute_ms) * minute_ms
      ≡ l - l % minute_ms
clock_sum l =
    let e : clock_hour (l % day_ms / 3600000) ≡ l % day_ms / 3600000 = ground arith in
    rw e (omega arith)

-- The text of a local clock.
abbrev pub hhmm_of : ℕ → Text
hhmm_of l = clock_text (clock_hour (l % day_ms / 3600000)) (l % 3600000 / minute_ms)

iso_minutes-hhmm_of :
    (l : ℕ)
    → iso_minutes (hhmm_of l)
      ≡ some (clock_hour (l % day_ms / 3600000) * 60 + l % 3600000 / minute_ms)
iso_minutes-hhmm_of l =
    iso_minutes-clock_text (clock_hour (l % day_ms / 3600000)) (l % 3600000 / minute_ms)
      (ground arith) (omega arith)

module _ (fmt : Text → ℕ → Option Parts) (tz : Option Text) where
  pub utc_to_zoned-parts :
      (t l : ℕ)
      → fmt (zone_or_default tz) t ≡ some (parts_of l)
      → utc_to_zoned_wall_clock fmt t tz ≡ parts_clock t (parts_of l)
  unfolding utc_to_zoned_wall_clock
  utc_to_zoned-parts t l h = rw h refl

  -- A date and the clock text of `l`, whose zone shows `k` when they are read as UTC.
  pub zoned_time-parts :
      (date l k t : ℕ)
      → let as_utc = date * day_ms + (l % day_ms - l % minute_ms) in
        fmt (zone_or_default tz) as_utc ≡ some (parts_of k)
        → k % 1000 ≡ 0
        → as_utc + as_utc ≡ t + k
        → zoned_time_to_utc fmt date (hhmm_of l) tz ≡ some t
  unfolding zoned_time_to_utc
  zoned_time-parts date l k t h m s =
      let m' = clock_hour (l % day_ms / 3600000) * 60 + l % 3600000 / minute_ms in
      let e : date * day_ms + m' * minute_ms ≡ date * day_ms + (l % day_ms - l % minute_ms) =
        (let c = clock_sum l in omega arith) in
      let p = parts_sum k in rw (iso_minutes-hhmm_of l, e, h) (ap some (omega arith))

  -- A minute's instant, read as a wall clock and encoded again, is the same instant, where the zone has the
  -- same offset at the instant as at the instant that shows the same clock in UTC.
  pub zoned_time_to_utc-wall_clock :
      (t l k : ℕ)
      → fmt (zone_or_default tz) t ≡ some (parts_of l)
      → fmt (zone_or_default tz) l ≡ some (parts_of k)
      → l + l ≡ t + k
      → t % minute_ms ≡ 0
      → l % minute_ms ≡ 0
      → let w = utc_to_zoned_wall_clock fmt t tz in zoned_time_to_utc fmt w.date w.hhmm tz ≡ some t
  zoned_time_to_utc-wall_clock t l k h g s m n =
      let e : l / day_ms * day_ms + (l % day_ms - l % minute_ms) ≡ l = omega arith in
      rw (utc_to_zoned-parts t l h)
        (zoned_time-parts (l / day_ms) l k t (rw e g) (omega arith) (omega arith))
