-- ===== src/Bookings/Recurrence/Clock.antt =====
-- `applyWallShift`: the local time of a moved occurrence, across changes of the zone's offset.
use booking_system.Base.{ℕ, ◌+◌, ◌-◌, ◌*◌, ◌/◌, ◌%◌, ◌≡◌, refl, subst, Option, some, Text, arith}
use booking_system.Common.Tz.{
  Parts, WallClock, day_ms, minute_ms, zone_or_default, utc_to_zoned_wall_clock,
}
use booking_system.Common.Tz.Round.{parts_of, utc_to_zoned-parts, zoned_time-parts}
use booking_system.Bookings.Recurrence.Edit.{wall_shift, apply_wall_shift}

-- The date and the time of day that a wall clock shows.
abbrev pub reading : WallClock → ℕ × Text
reading w = (w.date, w.hhmm)

module _ (fmt : Text → ℕ → Option Parts) (tz : Option Text) where
  -- The zone shows the local clock `l` at the instant `t`.
  abbrev pub Shows : ℕ → ℕ → Type 0
  Shows t l = fmt (zone_or_default tz) t ≡ some (parts_of l)

  -- A moved occurrence shows the new local time of the anchor on its own local date, moved by as many days as
  -- the anchor, whatever the offset was at the old instants: `wall` being that local clock, it is enough that
  -- the zone has one offset at the new instant `t'` and at the instant that shows `wall` in UTC.
  pub apply_wall_shift-reading :
      (old new t t' lo ln lt wall k : ℕ)
      → Shows old lo
      → Shows new ln
      → Shows t lt
      → wall ≡ (lt / day_ms + ln / day_ms - lo / day_ms) * day_ms + (ln % day_ms - ln % minute_ms)
      → Shows wall k
      → wall + wall ≡ t' + k
      → k % 1000 ≡ 0
      → Shows t' wall
      → (apply_wall_shift fmt t (wall_shift fmt old new tz) tz ≡ some t')
        × (reading (utc_to_zoned_wall_clock fmt t' tz) ≡ (
          (utc_to_zoned_wall_clock fmt t tz).date
              + (utc_to_zoned_wall_clock fmt new tz).date
              - (utc_to_zoned_wall_clock fmt old tz).date,
          (utc_to_zoned_wall_clock fmt new tz).hhmm,
        ))
  unfolding apply_wall_shift wall_shift
  apply_wall_shift-reading old new t t' lo ln lt wall k ho hn ht w hw s m h' =
      let date = lt / day_ms + ln / day_ms - lo / day_ms in
      let co = utc_to_zoned-parts fmt tz old lo ho in
      let cn = utc_to_zoned-parts fmt tz new ln hn in
      let ct = utc_to_zoned-parts fmt tz t lt ht in
      let c' = utc_to_zoned-parts fmt tz t' wall h' in
      let d : wall / day_ms ≡ date = omega arith in
      let p : wall % day_ms / 3600000 ≡ ln % day_ms / 3600000 = omega arith in
      let q : wall % 3600000 / minute_ms ≡ ln % 3600000 / minute_ms = omega arith in
      (
        rw (co, cn, ct)
            (zoned_time-parts fmt tz date ln k t'
              (subst (λ x. fmt (zone_or_default tz) x ≡ some (parts_of k)) w hw) m
              (subst (λ x. x + x ≡ t' + k) w s)),
        rw (co, cn, ct, c', d, p, q) refl,
      )
