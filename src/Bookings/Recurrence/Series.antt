-- ===== src/Bookings/Recurrence/Series.antt =====
-- recurrence.service.ts: `createSeries` and `cancelSeries`.
use booking_system.Base.{
  ℕ, suc, Bool, true, not, ◌&&◌, Option, none, some, List, [], ◌∷◌, ◌++◌, Text, codes, keep, change,
  find, if◌then◌else◌, ◌==◌, ltb, same_opt, is_empty, Result, ok, err, ◌>>=◌, ◌>>◌, throw_if,
  or_throw, bad_request, conflict, forbidden, not_found, not_iso_dates, end_not_after_start,
  no_occurrences, none_booked,
}
use booking_system.Common.Tz.{Parts}
use booking_system.Common.Roles.{is_admin}
use booking_system.Store.Booking.{Booking, is_terminal}
use booking_system.Store.Resource.{Resource}
use booking_system.Store.Outbox.{booking_created}
use booking_system.Store.Db.{Db, find_resource, send, notify}
use booking_system.Bookings.Create.{CreateBookingDto, bookable, create}
use booking_system.Bookings.Cancel.{cancel}
use booking_system.Bookings.Recurrence.{
  ℤ, Pattern, Whole, CreateRecurringDto, Occurrence, interval_of,
}
use booking_system.Bookings.Recurrence.Rule.{expand}

pub data RecurrenceStatus : Type 0 where
  active cancelled completed : RecurrenceStatus

-- modules/bookings/recurrence.entity.ts
pub record Recurrence : Type 0 where
  pub id : ℕ
  pub tenant_id : ℕ
  pub created_by : ℕ
  pub resource_id : ℕ
  pub pattern : Pattern
  pub interval : ℕ
  pub count : Option Whole
  pub until : Option (Option ℕ)
  pub byday : List ℤ
  pub bymonth : List ℤ
  pub rrule : Text
  pub status : RecurrenceStatus

-- The table of the series beside the others.
pub record SeriesDb : Type 0 where
  pub db : Db
  pub recurrences : List Recurrence

pub record ExpansionResult : Type 0 where
  pub recurrence_id : ℕ
  pub booking_ids : List ℕ
  pub skipped : List ℕ

unfoldable pub first_window : Option ℕ → Option ℕ → Result (ℕ × ℕ)
first_window (some s) (some e) =
    if ltb s e then ok (s, e) else err (bad_request end_not_after_start)
first_window _ _ = err (bad_request not_iso_dates)

abbrev pub new_recurrence : ℕ → ℕ → ℕ → CreateRecurringDto → Resource → Recurrence
new_recurrence id tenant user dto r = record {
  id = id;
  tenant_id = tenant;
  created_by = user;
  resource_id = r.id;
  pattern = dto.pattern;
  interval = interval_of dto.interval;
  count = dto.count;
  until = dto.until;
  byday = dto.byday;
  bymonth = dto.bymonth;
  rrule = dto.rrule;
  status = active;
}

abbrev pub occurrence_dto : CreateRecurringDto → ℕ → ℕ → Occurrence → CreateBookingDto
occurrence_dto dto room rec occ = record {
  resource_id = room;
  start_time = some occ.start;
  end_time = some occ.end;
  title = dto.title;
  meeting_url = dto.meeting_url;
  is_private = dto.is_private;
  custom_field_values = dto.custom_field_values;
  services = dto.services;
  attendees = dto.attendees;
  cost_center_code = dto.cost_center_code;
  recurrence_id = some rec;
  is_recurring = true;
}

-- The database and the result while the occurrences are booked.
pub record Progress : Type 0 where
  pub db : Db
  pub booking_ids : List ℕ
  pub skipped : List ℕ
  pub first_booking : Option ℕ

abbrev pub first_of : Option ℕ → ℕ → Option ℕ
first_of none id = some id
first_of (some f) id = some f

-- `try { … bookingIds.push } catch { skipped.push }`
abbrev pub booked : Progress → ℕ → Result (Booking × Db) → Progress
booked p start (ok (b, db')) = record {
  db = db';
  booking_ids = p.booking_ids ++ (b.id ∷ []);
  skipped = p.skipped;
  first_booking = first_of p.first_booking b.id;
}
booked p start (err e) = record p { skipped = p.skipped ++ (start ∷ []) }

-- The summary mail for the whole series.
abbrev pub notify_first : Option ℕ → Db → Db
notify_first none db = db
notify_first (some id) db = send (notify booking_created id) db

-- The parent row is deleted again where no occurrence was booked.
abbrev pub drop_recurrence : ℕ → ℕ → List Recurrence → List Recurrence
drop_recurrence tenant id recs =
    keep (λ (r : Recurrence). not (r.id == id && r.tenant_id == tenant)) recs

unfoldable pub settle_series :
    ℕ → ℕ → List Recurrence → Progress → Result ExpansionResult × SeriesDb
settle_series tenant rec recs p =
    if is_empty p.booking_ids
    then (
      err (conflict none_booked),
      record { db = p.db; recurrences = drop_recurrence tenant rec recs },
    )
    else (
      ok (record { recurrence_id = rec; booking_ids = p.booking_ids; skipped = p.skipped }),
      record { db = notify_first p.first_booking p.db; recurrences = recs },
    )

abbrev pub of_series : ℕ → ℕ → Booking → Bool
of_series tenant rec b = b.tenant_id == tenant && same_opt b.recurrence_id rec

abbrev pub reason_or : Text → Text
reason_or [] = codes "series cancelled"
reason_or (c ∷ s) = c ∷ s

-- A cancellation that is refused leaves the database as it was.
abbrev pub after_cancel : Db → Result (Booking × Db) → Db
after_cancel db (ok r) = r.1
after_cancel db (err e) = db

unfoldable pub cancel_all : ℕ → ℕ → Text → Text → List Booking → Db → Db
cancel_all tenant user role reason [] db = db
cancel_all tenant user role reason (c ∷ cs) db =
    let next =
      if is_terminal c.status
      then db
      else after_cancel db (cancel db tenant user role c.id (reason_or reason)) in
    cancel_all tenant user role reason cs next

abbrev pub find_recurrence : SeriesDb → ℕ → ℕ → Option Recurrence
find_recurrence st tenant id =
    find (λ (r : Recurrence). r.id == id && r.tenant_id == tenant) st.recurrences

abbrev pub cancelled_recurrence : Recurrence → Recurrence
cancelled_recurrence r = record r { status = cancelled }

unfoldable pub cancel_series : SeriesDb → ℕ → ℕ → Text → ℕ → Text → Result (Recurrence × SeriesDb)
cancel_series st tenant user role id reason = do
  rec ← or_throw (find_recurrence st tenant id) not_found
  throw_if (not (rec.created_by == user) && not (is_admin role)) forbidden
  let saved = cancelled_recurrence rec
  ok (
    saved,
    record {
      db = cancel_all tenant user role reason (keep (of_series tenant id) st.db.bookings) st.db;
      recurrences = change (λ (r : Recurrence). r.id == rec.id) (λ _. saved) st.recurrences;
    },
  )

module _ (format_to_parts : Text → ℕ → Option Parts) (date_parse : Text → Option ℕ) where
  unfoldable pub book_all :
      ℕ → ℕ → ℕ → CreateRecurringDto → ℕ → ℕ → List Occurrence → Progress → Progress
  book_all now tenant user dto room rec [] p = p
  book_all now tenant user dto room rec (occ ∷ occs) p =
      book_all now tenant user dto room rec occs (
        booked p occ.start
          (create format_to_parts p.db now tenant user (occurrence_dto dto room rec occ) true))

  -- The checks: the room and the occurrences of the request.
  unfoldable pub series_plan : Db → ℕ → CreateRecurringDto → Result (Resource × List Occurrence)
  series_plan db tenant dto = do
    w ← first_window dto.first_start dto.first_end
    r ← bookable (find_resource db tenant dto.resource_id)
    occs ← expand date_parse dto w.0 w.1
    throw_if (is_empty occs) (bad_request no_occurrences)
    ok (r, occs)

  -- The parent row, then the occurrences one by one.
  unfoldable pub book_series :
      SeriesDb
      → ℕ
      → ℕ
      → ℕ
      → CreateRecurringDto
      → Resource
      → List Occurrence
      → Result ExpansionResult × SeriesDb
  book_series st now tenant user dto r occs =
      let rec = st.db.next_id in
      settle_series tenant rec (new_recurrence rec tenant user dto r ∷ st.recurrences) (
        book_all now tenant user dto r.id rec occs (record {
          db = record (st.db) { next_id = suc rec };
          booking_ids = [];
          skipped = [];
          first_booking = none;
        }))

  -- A request that does not pass the checks leaves the tables as they were.
  abbrev pub after_plan :
      SeriesDb
      → ℕ
      → ℕ
      → ℕ
      → CreateRecurringDto
      → Result (Resource × List Occurrence)
      → Result ExpansionResult × SeriesDb
  after_plan st now tenant user dto (err e) = (err e, st)
  after_plan st now tenant user dto (ok v) = book_series st now tenant user dto v.0 v.1

  -- What it answers, and the tables after it, also where it throws.
  unfoldable pub create_series :
      SeriesDb → ℕ → ℕ → ℕ → CreateRecurringDto → Result ExpansionResult × SeriesDb
  create_series st now tenant user dto =
      after_plan st now tenant user dto (series_plan st.db tenant dto)
