-- ===== src/Tests/Recurrence.antt =====
-- Series at concrete inputs.
use booking_system.Base.{
  ℕ, ◌+◌, ◌-◌, ◌/◌, ◌<◌, ◌≡◌, refl, sym, ap, ◌∙◌, inl, inr, true, false, Option, none, some, List,
  [], ◌∷◌, Text, codes, map, length, keep, ok, All, arith, ltb, if◌then◌else◌,
}
use booking_system.Common.Tz.{Parts, day_ms, minute_ms, utc_to_zoned_wall_clock, zoned_time_to_utc}
use booking_system.Common.Tz.Round.{parts_of, zoned_time_to_utc-wall_clock}
use booking_system.Store.Booking.{Booking}
use booking_system.Store.Resource.{Resource}
use booking_system.Store.Db.{Db}
use booking_system.Bookings.Recurrence.{
  ℤ, pos, negsuc, interval_of, CreateRecurringDto, Pattern, daily, weekly, plus, Occurrence, Plan,
  plan, occurrence, expand_pattern,
}
use booking_system.Bookings.Recurrence.Daily.{
  expand_pattern-daily, expand_pattern-weekly_later, accepted, daily_dates,
}
use booking_system.Bookings.Recurrence.Rule.{expand, expand-eq-ok}
use booking_system.Bookings.Recurrence.Series.{
  SeriesDb, Recurrence, active, series_plan, create_series, cancel_series, of_series, first_window,
}
use booking_system.Bookings.Recurrence.Safety.{IsClear, create_series-IsClear}
use booking_system.Bookings.Recurrence.Accounts.{Outcome, create_series-Outcome}
use booking_system.Bookings.Recurrence.Cancelled.{IsClosed, IsOwn, cancel_series-closes}
use booking_system.Bookings.Recurrence.Edit.{
  SeriesUpdate, update_series, wall_shift, apply_wall_shift,
}
use booking_system.Bookings.Recurrence.EditSafety.{update_series-IsClear}
use booking_system.Bookings.Recurrence.Clock.{reading, apply_wall_shift-reading}
use booking_system.Bookings.Update.{UpdateBookingDto}
use booking_system.Tests.Data.{hong_kong, office, meeting, ten}
use booking_system.Tests.Bookings.{office-IsComposite, office-NoDoubleBooking}

-- From 10:00 in Hong Kong, three times.
abbrev request : CreateRecurringDto
request = record {
  resource_id = 2;
  first_start = some ten;
  first_end = some (ten + 3600000);
  pattern = daily;
  interval = none;
  count = some (plus 3);
  until = none;
  byday = [];
  bymonth = [];
  ex_dates = [];
  title = codes "Standup";
  meeting_url = [];
  is_private = false;
  rrule = [];
  custom_field_values = [];
  services = [];
  attendees = [];
  cost_center_code = none;
}

abbrev weekly_request : CreateRecurringDto
weekly_request = record request { pattern = weekly }

abbrev no_date : Text → Option ℕ
no_date s = none

-- A rule for every second day until a date.
abbrev rule_request : CreateRecurringDto
rule_request = record request {
  rrule = codes "RRULE:FREQ=daily;INTERVAL=2;COUNT=10;UNTIL=20241010";
}

-- Each Tuesday, and a weekday that was long ago.
abbrev past_request : CreateRecurringDto
past_request = record weekly_request { byday = negsuc 8000 ∷ pos 2 ∷ [] }

expand-eq-ok_example :
    (out : List Occurrence) × (expand no_date past_request ten (ten + 3600000) ≡ ok out)
expand-eq-ok_example = expand-eq-ok no_date past_request ten (ten + 3600000) refl refl

-- Only the weekday that was long ago.
abbrev refused_request : CreateRecurringDto
refused_request = record weekly_request { byday = negsuc 8000 ∷ [] }

expand_pattern-daily_example :
    expand_pattern request ten (ten + 3600000)
    ≡ ok (
        map (occurrence (plan request ten (ten + 3600000))) (
          keep (accepted (plan request ten (ten + 3600000))) (
            daily_dates
              (plan request ten (ten + 3600000))
              0
              (plan request ten (ten + 3600000)).count)))
expand_pattern-daily_example = expand_pattern-daily request ten (ten + 3600000) refl

weekly_dates :
    (out : List Occurrence) × (expand_pattern weekly_request ten (ten + 3600000) ≡ ok out)
unfolding expand_pattern booking_system.Bookings.Recurrence.generate
    booking_system.Bookings.Recurrence.rounds booking_system.Bookings.Recurrence.count_of
    booking_system.Bookings.Recurrence.round booking_system.Bookings.Recurrence.week_slots
    booking_system.Bookings.Recurrence.emit booking_system.Bookings.Recurrence.interval_of
    booking_system.Bookings.Recurrence.push booking_system.Bookings.Recurrence.sort_days
weekly_dates = (_, refl)

expand_pattern-weekly_later_example :
    All (λ (o : Occurrence). ten / day_ms < o.start / day_ms) weekly_dates.0
expand_pattern-weekly_later_example =
    expand_pattern-weekly_later weekly_request ten (ten + 3600000) weekly_dates.0 refl (omega arith)
      weekly_dates.1

office-IsClear : IsClear office
office-IsClear = record { composite = office-IsComposite; free = office-NoDoubleBooking }

abbrev tables : SeriesDb
tables = record { db = office; recurrences = [] }

create_series-IsClear_example :
    IsClear (create_series hong_kong no_date tables (ten - 3600000) 9 7 request).1.db
create_series-IsClear_example =
    create_series-IsClear hong_kong no_date tables (ten - 3600000) 9 7 request office-IsClear

planned_series :
    (v : Resource × List Occurrence) × (series_plan hong_kong no_date office 9 request
      ≡ ok (v.0, v.1))
unfolding series_plan first_window booking_system.Bookings.Create.bookable expand expand_pattern
    booking_system.Bookings.Recurrence.generate booking_system.Bookings.Recurrence.Rule.effective
    booking_system.Bookings.Recurrence.daily_from booking_system.Bookings.Recurrence.count_of
    booking_system.Bookings.Recurrence.push
planned_series = ((_, _), refl)

create_series-Outcome_example :
    Outcome 9 7 tables
      (length planned_series.0.1)
      (create_series hong_kong no_date tables (ten - 3600000) 9 7 request)
create_series-Outcome_example =
    create_series-Outcome hong_kong no_date tables (ten - 3600000) 9 7 request planned_series.0.0
      planned_series.0.1 planned_series.1

-- The meeting as the one occurrence of a series of its user.
abbrev weekly_meeting : Booking
weekly_meeting = record meeting { is_recurring = true; recurrence_id = some 50 }

abbrev series : Recurrence
series = record {
  id = 50;
  tenant_id = 9;
  created_by = 7;
  resource_id = 2;
  pattern = weekly;
  interval = 1;
  count = none;
  until = none;
  byday = [];
  bymonth = [];
  rrule = [];
  status = active;
}

abbrev with_series : SeriesDb
with_series = record {
  db = record office { bookings = weekly_meeting ∷ [] };
  recurrences = series ∷ [];
}

with_series-IsClear : IsClear with_series.db
with_series-IsClear = record {
  composite = office-IsComposite;
  free = λ a b t i j ne. elim i [
    | inl e ↦ elim j [
      | inl f ↦ absurd (ne (ap (λ (z : Booking). z.id) (e ∙ sym f)))
      | inr n ↦ elim n [ ]
    ]
    | inr n ↦ elim n [ ]
  ];
}

dropped_series :
    (v : Recurrence × SeriesDb) × (cancel_series with_series 9 7 (codes "General User") 50 []
      ≡ ok (v.0, v.1))
unfolding cancel_series
dropped_series = ((_, _), refl)

own :
    All
      (IsOwn 9 7 (codes "General User") with_series.db)
      (keep (of_series 9 50) with_series.db.bookings)
own = (record { found = refl; may = refl }, tt)

cancel_series-closes_example :
    All
      (λ (c : Booking). IsClosed 9 7 (codes "General User") dropped_series.0.1.db c.id)
      (keep (of_series 9 50) with_series.db.bookings)
cancel_series-closes_example =
    cancel_series-closes 9 7 (codes "General User") with_series dropped_series.0.1 50 []
      dropped_series.0.0 own dropped_series.1

-- The anchor moves by one hour and a day.
abbrev later : UpdateBookingDto
later = record {
  start_time = some (some (ten + 90000000));
  end_time = some (some (ten + 93600000));
  meeting_url = none;
  title = none;
  resource_id = none;
  services = none;
  attendees = none;
  custom_field_values = none;
}

moved_series :
    (v : SeriesUpdate × Db) × (update_series hong_kong with_series.db
        (ten - 3600000)
        9
        7
        (codes "General User")
        100
        later
      ≡ ok (v.0, v.1))
unfolding update_series booking_system.Bookings.Recurrence.Edit.update_anchor
    booking_system.Bookings.Recurrence.Edit.update_siblings
    booking_system.Bookings.Recurrence.Edit.edit_all booking_system.Bookings.AutoRelease.by_start
    booking_system.Bookings.Recurrence.Edit.series_patch
    booking_system.Bookings.Recurrence.Edit.moved_time apply_wall_shift zoned_time_to_utc
    booking_system.Common.Tz.iso_minutes wall_shift utc_to_zoned_wall_clock
moved_series = ((_, _), refl)

update_series-IsClear_example : IsClear moved_series.0.1
update_series-IsClear_example =
    update_series-IsClear hong_kong (ten - 3600000) 9 7 (codes "General User") later with_series.db
      100 moved_series.0.0 moved_series.0.1 with_series-IsClear moved_series.1

zoned_time_to_utc-wall_clock_example :
    zoned_time_to_utc hong_kong
      (utc_to_zoned_wall_clock hong_kong ten none).date
      (utc_to_zoned_wall_clock hong_kong ten none).hhmm
      none
    ≡ some ten
zoned_time_to_utc-wall_clock_example =
    zoned_time_to_utc-wall_clock hong_kong none ten (ten + 28800000) (ten + 57600000) refl refl
      (omega arith) (omega arith) (omega arith)

-- A zone eight hours ahead until noon, then nine.
abbrev summer : Text → ℕ → Option Parts
summer tz t = some (parts_of (if ltb t (ten + 7200000) then t + 28800000 else t + 32400000))

-- From ten to eleven, across the change.
apply_wall_shift-reading_example :
    (apply_wall_shift summer (ten + 86400000) (wall_shift summer ten (ten + 3600000) none) none
      ≡ some (ten + 86400000))
    × (reading (utc_to_zoned_wall_clock summer (ten + 86400000) none) ≡ (
      (utc_to_zoned_wall_clock summer (ten + 86400000) none).date
          + (utc_to_zoned_wall_clock summer (ten + 3600000) none).date
          - (utc_to_zoned_wall_clock summer ten none).date,
      (utc_to_zoned_wall_clock summer (ten + 3600000) none).hhmm,
    ))
apply_wall_shift-reading_example =
    apply_wall_shift-reading summer none ten (ten + 3600000) (ten + 86400000) (ten + 86400000)
      (ten + 28800000) (ten + 32400000) (ten + 118800000) (ten + 118800000) (ten + 151200000) refl
      refl refl (omega arith) refl (omega arith) (omega arith) refl
