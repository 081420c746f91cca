-- ===== src/Bookings/Validator/Policy.antt =====
-- What a window that booking-validator.service.ts lets through fulfils.
use booking_system.Base.{
  ℕ, zero, suc, ◌+◌, ◌-◌, ◌*◌, ◌≤◌, ◌<◌, ◌≡◌, inl, inr, Bool, true, false, Option, some, List, [],
  ◌∷◌, Text, ◌==◌, any, any-false, includes, includes_text, ok, In, arith, Bool-cases, Result-cases,
}
use booking_system.Common.Tz.{
  Parts, WallClock, day_ms, minute_ms, utc_to_zoned_wall_clock, zone_or_default,
}
use booking_system.Store.Resource.{RuleOverrides}
use booking_system.Store.Tenant.{Customization, Holiday}
use booking_system.Store.Db.{Db}
use booking_system.Bookings.Validator.{
  past_grace_ms, dates_from, last_date, local_dates_spanned, regions, closes, min_minutes,
  max_minutes, horizon_days, check_start, check_duration, check_days, spanned, validate,
}

-- The walk meets each date of the range that is within its bound.
includes-dates_from :
    (n cur last d : ℕ)
    → cur ≤ d
    → d ≤ last
    → d < cur + n
    → includes (dates_from n cur last) d ≡ true
unfolding dates_from
includes-dates_from zero cur last d a b c = absurd (omega arith)
includes-dates_from (suc n) cur last d a b c = elim (Bool-cases (cur == d)) [
  | inl e ↦ ground arith
  | inr e ↦
      let r = includes-dates_from n (cur + 1) last d (ground arith) b (omega arith) in ground arith
]

any-includes :
    (p : ℕ → Bool) (xs : List ℕ) (d : ℕ) → any p xs ≡ false → includes xs d ≡ true → p d ≡ false
any-includes p [] d h i = cc
any-includes p (x ∷ xs) d h i = elim (Bool-cases (x == d)) [
  | inl e ↦ let q : x ≡ d = ground arith in let f : p x ≡ false = ground arith in cc
  | inr e ↦ any-includes p xs d (ground arith) (ground arith)
]

module _ (c : Customization) (db : Db) (tenant : ℕ) (region : Text) where
  -- The date is no blackout day of the tenant, and no closure of the whole tenant or of the region.
  abbrev pub IsOpenDate : ℕ → Type 0
  IsOpenDate d =
      (includes c.blackout_dates d ≡ false)
      × ((h : Holiday)
          → In h db.holidays
          → h.tenant_id ≡ tenant
          → h.holiday_date ≡ d
          → h.is_blocker ≡ true
          → includes_text (regions region) h.region ≡ false)

  check_days-IsOpenDate :
      (dates : List ℕ) (d : ℕ) {x : Unit {0}}
      → check_days dates c.blackout_dates db.holidays tenant region ≡ ok x
      → includes dates d ≡ true
      → IsOpenDate d
  unfolding check_days
  check_days-IsOpenDate dates d h i =
      let b : any (includes c.blackout_dates) dates ≡ false = ground arith in
      let f : any (closes tenant region dates) db.holidays ≡ false = ground arith in
      (
        any-includes (includes c.blackout_dates) dates d b i,
        λ x xi t e k.
            let g : closes tenant region dates x ≡ false =
              any-false (closes tenant region dates) db.holidays f xi in
            let j : includes dates x.holiday_date ≡ true = rw e i in ground arith,
      )

module _ (fmt : Text → ℕ → Option Parts) (db : Db) (now tenant : ℕ) (o : RuleOverrides)
    (region : Text) (all_day : Bool) where
  abbrev custom : Customization
  custom = db.customization tenant

  start_bounds :
      (start horizon : ℕ) {x : Unit {0}}
      → check_start now horizon start ≡ ok x
      → (now ≤ start + past_grace_ms) × (start ≤ now + horizon * day_ms)
  unfolding check_start
  start_bounds start horizon h = (ground arith, ground arith)

  duration_bounds :
      (lo hi start end : ℕ) {x : Unit {0}}
      → all_day ≡ false
      → check_duration all_day lo hi start end ≡ ok x
      → (lo * minute_ms ≤ end - start) × (end - start ≤ hi * minute_ms)
  unfolding check_duration
  duration_bounds lo hi start end n h =
      let g : check_duration false lo hi start end ≡ ok tt = ground arith in
      (ground arith, ground arith)

  -- The wall clock of an instant in the tenant's zone.
  abbrev pub local : ℕ → WallClock
  local t = utc_to_zoned_wall_clock fmt t (some (zone_or_default custom.timezone))

  abbrev pub IsAllowed : ℕ → ℕ → Type 0
  IsAllowed start end =
      (start < end)
      × (now ≤ start + past_grace_ms)
      × (start ≤ now + horizon_days custom o * day_ms)
      × (all_day ≡ false
          → (min_minutes custom o * minute_ms ≤ end - start)
            × (end - start ≤ max_minutes custom o * minute_ms))
      × ((d : ℕ)
          → (local start).date ≤ d
          → d ≤ last_date (local start) (local end)
          → d < (local start).date + 366
          → IsOpenDate custom db tenant region d)

  -- A window that the validator lets through is one whose start is at most a minute ago and within
  -- the horizon, whose duration is within the limits unless it is an all-day booking, and whose local
  -- dates, the first 366, are neither blackout days nor closures of the tenant or the room's region.
  pub validate-IsAllowed :
      (start end : ℕ) {w : ℕ × ℕ}
      → validate fmt db now tenant (some start) (some end) o region all_day ≡ ok w
      → IsAllowed start end
  unfolding validate local_dates_spanned
  validate-IsAllowed start end h =
      let dates = spanned fmt custom start end in
      elim (Result-cases (check_start now (horizon_days custom o) start)) [
        | inr (x, e) ↦ absurd (ground arith)
        | inl (x, e) ↦
            elim (Result-cases
              (check_duration all_day (min_minutes custom o) (max_minutes custom o) start end)) [
                | inr (y, f) ↦ absurd (ground arith)
                | inl (y, f) ↦
                    elim (Result-cases
                      (check_days dates custom.blackout_dates db.holidays tenant region)) [
                        | inr (z, g) ↦ absurd (ground arith)
                        | inl (z, g) ↦
                            let (a, b) = start_bounds start (horizon_days custom o) e in
                            (
                              ground arith,
                              a,
                              b,
                              λ n.
                                  duration_bounds (min_minutes custom o) (max_minutes custom o)
                                    start end n f,
                              λ d l m k. check_days-IsOpenDate custom db tenant region dates d g (
                                  includes-dates_from 366 (local start).date
                                    (last_date (local start) (local end)) d l m k),
                            )
                      ]
              ]
      ]
