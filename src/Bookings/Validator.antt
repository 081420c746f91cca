-- ===== src/Bookings/Validator.antt =====
-- booking-validator.service.ts: the tenant's booking policy.
pub mod Policy
use booking_system.Base.{
  ℕ, zero, suc, ◌+◌, ◌-◌, ◌*◌, Bool, true, false, not, ◌&&◌, Option, none, some, List, [], ◌∷◌,
  Text, if◌then◌else◌, ◌==◌, ltb, leb, or_opt, any, includes, includes_text, Result, ok, err, ◌>>=◌,
  ◌>>◌, throw_if, HttpError, bad_request, invalid_window, start_in_past, beyond_horizon, too_short,
  too_long, blackout_day, closed_holiday,
}
use booking_system.Common.Tz.{
  Parts, WallClock, day_ms, minute_ms, zone_or_default, utc_to_zoned_wall_clock,
}
use booking_system.Store.Resource.{RuleOverrides}
use booking_system.Store.Tenant.{Customization, Holiday}
use booking_system.Store.Db.{Db}

abbrev pub past_grace_ms : ℕ
past_grace_ms = 60000

-- A setting that is there and positive, or the fallback.
unfoldable pub num : Option ℕ → ℕ → ℕ
num none fallback = fallback
num (some n) fallback = if ltb 0 n then n else fallback

-- `if (!(end > start)) throw e`; a comparison with an invalid date fails.
abbrev pub valid_window : HttpError → Option ℕ → Option ℕ → Result (ℕ × ℕ)
valid_window e (some start) (some end) = if ltb start end then ok (start, end) else err e
valid_window e _ _ = err e

-- The last day that the booking occupies.
unfoldable pub last_date : WallClock → WallClock → ℕ
last_date s e = if e.minutes == 0 && not (e.date == s.date) then e.date - 1 else e.date

-- `for (i = 0; i < n && cur <= last; i++)`
unfoldable pub dates_from : ℕ → ℕ → ℕ → List ℕ
dates_from zero cur last = []
dates_from (suc n) cur last =
    let rest = dates_from n (cur + 1) last in
    if leb cur last then cur ∷ (if cur == last then [] else rest) else []

unfoldable pub local_dates_spanned : WallClock → WallClock → List ℕ
unfolding last_date dates_from
local_dates_spanned s e = dates_from 366 s.date (last_date s e)

abbrev pub regions : Text → List Text
regions [] = [] ∷ []
regions (c ∷ r) = [] ∷ (c ∷ r) ∷ []

-- The row that `holidays.findOne` looks for.
abbrev pub closes : ℕ → Text → List ℕ → Holiday → Bool
closes tenant region dates h =
    h.tenant_id == tenant
    && includes dates h.holiday_date
    && h.is_blocker
    && includes_text (regions region) h.region

abbrev pub min_minutes : Customization → RuleOverrides → ℕ
min_minutes c o = num (or_opt o.min_duration_minutes c.min_duration_minutes) 15

abbrev pub max_minutes : Customization → RuleOverrides → ℕ
max_minutes c o = num (or_opt o.max_duration_minutes c.max_duration_minutes) 480

abbrev pub horizon_days : Customization → RuleOverrides → ℕ
horizon_days c o = num (or_opt o.booking_horizon_days c.booking_horizon_days) 180

unfoldable pub check_start : ℕ → ℕ → ℕ → Result (Unit {0})
check_start now horizon start = do
  throw_if (ltb (start + past_grace_ms) now) (bad_request start_in_past)
  throw_if (ltb (now + horizon * day_ms) start) (bad_request beyond_horizon)

-- Skipped for an all-day booking.
unfoldable pub check_duration : Bool → ℕ → ℕ → ℕ → ℕ → Result (Unit {0})
check_duration true lo hi start end = ok tt
check_duration false lo hi start end = do
  throw_if (ltb (end - start) (lo * minute_ms)) (bad_request too_short)
  throw_if (ltb (hi * minute_ms) (end - start)) (bad_request too_long)

unfoldable pub check_days : List ℕ → List ℕ → List Holiday → ℕ → Text → Result (Unit {0})
check_days dates blackout holidays tenant region = do
  throw_if (any (includes blackout) dates) (bad_request blackout_day)
  throw_if (any (closes tenant region dates) holidays) (bad_request closed_holiday)

module _ (format_to_parts : Text → ℕ → Option Parts) where
  -- The dates of the window, in the tenant's zone.
  abbrev pub spanned : Customization → ℕ → ℕ → List ℕ
  spanned c start end =
      let tz : Option Text = some (zone_or_default c.timezone) in
      local_dates_spanned (utc_to_zoned_wall_clock format_to_parts start tz)
        (utc_to_zoned_wall_clock format_to_parts end tz)

  -- Returns the window, which is valid where this does not throw.
  unfoldable pub validate :
      Db → ℕ → ℕ → Option ℕ → Option ℕ → RuleOverrides → Text → Bool → Result (ℕ × ℕ)
  unfolding check_start check_duration check_days
  validate db now tenant start end overrides region is_all_day =
      let c : Customization = db.customization tenant in
      valid_window (bad_request invalid_window) start end >>= λ w. do
        check_start now (horizon_days c overrides) w.0
        check_duration is_all_day (min_minutes c overrides) (max_minutes c overrides) w.0 w.1
        check_days (spanned c w.0 w.1) c.blackout_dates db.holidays tenant region
        ok w
