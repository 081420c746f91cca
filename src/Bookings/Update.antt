-- ===== src/Bookings/Update.antt =====
-- bookings.service.ts: `applyUpdate` and `update`.
use booking_system.Base.{
  ℕ, suc, ◌+◌, ◌&&◌, ◌||◌, not, Option, none, some, List, [], Text, if◌then◌else◌, ◌==◌, is_some,
  or_else, Result, ok, ◌>>=◌, ◌>>◌, throw_if, or_throw, conflict, not_found, forbidden,
  end_before_start, settled,
}
use booking_system.Common.Tz.{Parts}
use booking_system.Common.Roles.{is_admin}
use booking_system.Store.Booking.{Booking, pending_approval, is_terminal, is_confirmed, Answers}
use booking_system.Store.Resource.{Resource}
use booking_system.Store.Outbox.{booking_updated}
use booking_system.Store.Db.{
  Db, find_booking, find_resource, save_booking, send, emit, sync, notify, rescheduled,
}
use booking_system.Bookings.Validator.{valid_window, validate}
use booking_system.Bookings.Hours.{
  Mapped, map_all_day_to_operating_hours, assert_within_operating_hours,
}
use booking_system.Bookings.Rules.{validate_custom_fields, merge_answers, non_empty}
use booking_system.Bookings.Conflict.{related_resource_ids, assert_no_conflict}
use booking_system.Bookings.Create.{needs_approval, bookable}

-- UpdateBookingDto. `none` is an absent field; a time that is given may be an invalid date.
pub record UpdateBookingDto : Type 0 where
  pub start_time : Option (Option ℕ)
  pub end_time : Option (Option ℕ)
  pub meeting_url : Option Text
  pub title : Option Text
  pub resource_id : Option ℕ
  pub services : Option (List Text)
  pub attendees : Option (List Text)
  pub custom_field_values : Option Answers

-- `dto.x === undefined ? stored : x.length ? x : null`
abbrev edit_list : Option (List Text) → Option (List Text) → Option (List Text)
edit_list none stored = stored
edit_list (some xs) stored = non_empty xs

abbrev stored_answers : Option Answers → Answers
stored_answers none = []
stored_answers (some m) = m

abbrev clean_for : Option Resource → Answers → Result Answers
clean_for none merged = ok merged
clean_for (some r) merged = validate_custom_fields r merged

unfoldable pub edit_answers : Db → ℕ → Booking → Option Answers → Result Booking
edit_answers db tenant b none = ok b
edit_answers db tenant b (some incoming) =
    clean_for (find_resource db tenant b.resource_id)
      (merge_answers (stored_answers b.custom_field_values) incoming)
    >>= λ cleaned. ok (record b { custom_field_values = non_empty cleaned })

abbrev pub edit_fields : UpdateBookingDto → Booking → Booking
edit_fields dto b = record b {
  title = or_else dto.title b.title;
  meeting_url = or_else dto.meeting_url b.meeting_url;
  services = edit_list dto.services b.services;
  attendees = edit_list dto.attendees b.attendees;
}

-- A room that needs approval sends a confirmed booking back to the queue.
abbrev moved : Booking → Resource → ℕ → ℕ → Booking
moved b r start end = record b {
  status = if needs_approval r && is_confirmed b.status then pending_approval else b.status;
  start_time = start;
  end_time = end;
  resource_id = r.id;
}

-- `dto.resourceId || b.resourceId`; 0 is the empty string.
abbrev pub target_of : Option ℕ → ℕ → ℕ
target_of (some (suc id)) current = suc id
target_of _ current = current

module _ (format_to_parts : Text → ℕ → Option Parts) where
  -- The branch of `applyUpdate` for a new time or a new room.
  unfoldable pub reschedule : Db → ℕ → ℕ → Booking → ℕ → UpdateBookingDto → Result Booking
  reschedule db now tenant b target dto =
      let tz : Option Text = (db.customization tenant).timezone in
      valid_window (conflict end_before_start) (or_else dto.start_time (some b.start_time))
        (or_else dto.end_time (some b.end_time))
      >>= λ w. bookable (find_resource db tenant target) >>= λ r.
          let m : Mapped =
            map_all_day_to_operating_hours format_to_parts tz r.operating_hours w.0 w.1 in
          (do
            v ←
                validate format_to_parts db now tenant m.start m.end r.rule_overrides r.region
                  m.was_all_day
            assert_within_operating_hours format_to_parts tz r.operating_hours v.0 v.1
            assert_no_conflict db.bookings tenant (related_resource_ids db tenant r) v.0 v.1
                (some b.id) r
            ok (moved b r v.0 v.1))

  unfoldable pub maybe_reschedule : Db → ℕ → ℕ → Booking → UpdateBookingDto → Result Booking
  maybe_reschedule db now tenant b dto =
      let target = target_of dto.resource_id b.resource_id in
      if is_some dto.start_time || is_some dto.end_time || not (target == b.resource_id)
      then reschedule db now tenant b target dto
      else ok b

  unfoldable pub apply_update : Db → ℕ → ℕ → ℕ → Text → ℕ → UpdateBookingDto → Result (Booking × Db)
  apply_update db now tenant user role id dto = do
    b ← or_throw (find_booking db tenant id) not_found
    throw_if (not (b.user_id == user) && not (is_admin role)) forbidden
    throw_if (is_terminal b.status) (conflict settled)
    placed ← maybe_reschedule db now tenant b dto
    edited ← edit_answers db tenant (edit_fields dto placed) dto.custom_field_values
    let saved = record edited { version = edited.version + 1 }
    ok (saved, save_booking db saved)

  -- The messages follow the commit.
  unfoldable pub update : Db → ℕ → ℕ → ℕ → Text → ℕ → UpdateBookingDto → Result (Booking × Db)
  update db now tenant user role id dto = do
    (saved, db') ← apply_update db now tenant user role id dto
    ok (
      saved,
      send (notify booking_updated saved.id)
          (send (sync booking_updated saved.id) (send (emit rescheduled saved.id) db')),
    )
