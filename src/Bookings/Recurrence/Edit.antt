-- ===== src/Bookings/Recurrence/Edit.antt =====
-- bookings.service.ts: `updateSeries`, which moves the open occurrences of a series by wall clock.
use booking_system.Base.{
  ℕ, suc, ◌+◌, ◌-◌, Bool, not, ◌&&◌, Option, none, some, List, [], ◌∷◌, ◌++◌, Text, keep, length,
  if◌then◌else◌, ◌==◌, ltb, Result, ok, err, ◌>>=◌, ◌>>◌, throw_if, or_throw, forbidden, not_found,
  internal,
}
use booking_system.Common.Tz.{Parts, utc_to_zoned_wall_clock, zoned_time_to_utc}
use booking_system.Common.Roles.{is_admin}
use booking_system.Store.Booking.{Booking, is_terminal}
use booking_system.Store.Outbox.{booking_updated}
use booking_system.Store.Db.{Db, find_booking, send, emit, sync, notify, rescheduled}
use booking_system.Bookings.AutoRelease.{by_start}
use booking_system.Bookings.Update.{UpdateBookingDto, apply_update, update}
use booking_system.Bookings.Recurrence.Series.{of_series}

-- `dayOffset` is the number of days from `from` to `to`.
pub record WallShift : Type 0 where
  pub from : ℕ
  pub to : ℕ
  pub hhmm : Text

pub record SeriesUpdate : Type 0 where
  pub updated : ℕ
  pub skipped : List ℕ

-- The transaction while the siblings are visited.
pub record Edits : Type 0 where
  pub db : Db
  pub saved : List Booking
  pub skipped : List ℕ

-- Terminal and past occurrences are left alone.
abbrev pub editable : ℕ → Booking → Bool
editable now b = not (is_terminal b.status) && not (ltb b.start_time now)

-- `try { … } catch { skipped.push }`
abbrev pub edited : Edits → Booking → Result (Booking × Db) → Edits
edited w s (ok (saved, db')) = record {
  db = db';
  saved = w.saved ++ (saved ∷ []);
  skipped = w.skipped;
}
edited w s (err e) = record w { skipped = w.skipped ++ (s.start_time ∷ []) }

-- The messages after the commit.
unfoldable pub announce : List Booking → Db → Db
announce [] db = db
announce (b ∷ bs) db = announce bs (
    send (notify booking_updated b.id)
      (send (sync booking_updated b.id) (send (emit rescheduled b.id) db)))

-- `if (dto.resourceId)`; 0 is the empty text.
abbrev given_room : Option ℕ → Option ℕ
given_room (some (suc n)) = some (suc n)
given_room _ = none

module _ (format_to_parts : Text → ℕ → Option Parts) where
  unfoldable pub wall_shift : ℕ → ℕ → Option Text → WallShift
  wall_shift old new tz =
      let o = utc_to_zoned_wall_clock format_to_parts old tz in
      let n = utc_to_zoned_wall_clock format_to_parts new tz in
      record { from = o.date; to = n.date; hhmm = n.hhmm }

  -- The occurrence's own local date, moved by the days, at the new local time.
  unfoldable pub apply_wall_shift : ℕ → WallShift → Option Text → Option ℕ
  apply_wall_shift t s tz =
      let w = utc_to_zoned_wall_clock format_to_parts t tz in
      zoned_time_to_utc format_to_parts (w.date + s.to - s.from) s.hhmm tz

  -- The new time of an end of the occurrence: absent where the request has none. An invalid date makes
  -- `toISOString` throw.
  unfoldable pub moved_time : Option (Option ℕ) → ℕ → ℕ → Option Text → Result (Option (Option ℕ))
  moved_time none anchor t tz = ok none
  moved_time (some none) anchor t tz = err internal
  moved_time (some (some new)) anchor t tz =
      or_throw (apply_wall_shift t (wall_shift anchor new tz) tz) internal >>= λ m.
      ok (some (some m))

  unfoldable pub series_patch :
      UpdateBookingDto → Booking → Booking → Option Text → Result UpdateBookingDto
  series_patch dto anchor s tz = do
    start ← moved_time dto.start_time anchor.start_time s.start_time tz
    end ← moved_time dto.end_time anchor.end_time s.end_time tz
    ok (record dto { start_time = start; end_time = end; resource_id = given_room dto.resource_id })

  unfoldable pub edit_all :
      ℕ
      → ℕ
      → ℕ
      → Text
      → UpdateBookingDto
      → Booking
      → Option Text
      → List Booking
      → Edits
      → Result Edits
  edit_all now tenant user role dto anchor tz [] w = ok w
  edit_all now tenant user role dto anchor tz (s ∷ ss) w =
      (if editable now s
        then (series_patch dto anchor s tz >>= λ patch.
            ok (edited w s (apply_update format_to_parts w.db now tenant user role s.id patch)))
        else ok w)
      >>= λ w'. edit_all now tenant user role dto anchor tz ss w'

  -- A booking of a series: one transaction over its occurrences by start, then the messages.
  unfoldable pub update_siblings :
      Db → ℕ → ℕ → ℕ → Text → Booking → ℕ → UpdateBookingDto → Result (SeriesUpdate × Db)
  update_siblings db now tenant user role anchor rec dto =
      edit_all now tenant user role dto anchor (db.customization tenant).timezone
        (by_start (keep (of_series tenant rec) db.bookings))
        (record { db = db; saved = []; skipped = [] })
      >>= λ w. ok (record { updated = length w.saved; skipped = w.skipped }, announce w.saved w.db)

  unfoldable pub update_anchor :
      Db → ℕ → ℕ → ℕ → Text → Booking → UpdateBookingDto → Option ℕ → Result (SeriesUpdate × Db)
  update_anchor db now tenant user role anchor dto none =
      update format_to_parts db now tenant user role anchor.id dto >>= λ r.
      ok (record { updated = 1; skipped = [] }, r.1)
  update_anchor db now tenant user role anchor dto (some rec) =
      update_siblings db now tenant user role anchor rec dto

  unfoldable pub update_series :
      Db → ℕ → ℕ → ℕ → Text → ℕ → UpdateBookingDto → Result (SeriesUpdate × Db)
  update_series db now tenant user role id dto = do
    anchor ← or_throw (find_booking db tenant id) not_found
    throw_if (not (anchor.user_id == user) && not (is_admin role)) forbidden
    update_anchor db now tenant user role anchor dto anchor.recurrence_id
