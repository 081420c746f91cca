-- ===== src/Bookings/Create.antt =====
-- bookings.service.ts: `create`.
use booking_system.Base.{
  ℕ, suc, Bool, true, Option, none, some, List, [], ◌∷◌, Text, if◌then◌else◌, is_some, or_else,
  Result, ok, err, ◌>>=◌, ◌>>◌, conflict, not_found, end_before_start,
}
use booking_system.Common.Tz.{Parts}
use booking_system.Store.Booking.{
  Booking, confirmed, pending_approval, is_pending_approval, exclusive, shared, is_shared, pending,
  Answers,
}
use booking_system.Store.Resource.{Resource}
use booking_system.Store.Outbox.{booking_created}
use booking_system.Store.Db.{Db, find_resource, send, emit, sync, notify, created}
use booking_system.Approvals.Chain.{materialize}
use booking_system.Bookings.Validator.{valid_window, validate}
use booking_system.Bookings.Hours.{
  Mapped, map_all_day_to_operating_hours, assert_within_operating_hours,
}
use booking_system.Bookings.Rules.{
  assert_can_book, validate_custom_fields, resolve_cost_center, non_empty,
}
use booking_system.Bookings.Conflict.{related_resource_ids, assert_no_conflict}

-- CreateBookingDto. An absent text or list is empty; an invalid date is `none`.
pub record CreateBookingDto : Type 0 where
  pub resource_id : ℕ
  pub start_time : Option ℕ
  pub end_time : Option ℕ
  pub title : Text
  pub meeting_url : Text
  pub is_private : Bool
  pub custom_field_values : Answers
  pub services : List Text
  pub attendees : List Text
  pub cost_center_code : Option Text
  pub recurrence_id : Option ℕ
  pub is_recurring : Bool

-- What the checks before the insert establish.
pub record Draft : Type 0 where
  pub room : Resource
  pub start : ℕ
  pub end : ℕ
  pub answers : Answers
  pub code : Option Text

-- `resource.ruleOverrides?.requiresApproval ?? resource.requiresApproval`
unfoldable pub needs_approval : Resource → Bool
needs_approval r = or_else r.rule_overrides.requires_approval r.requires_approval

-- `if (!resource || !resource.isActive) throw new NotFoundException(…)`
unfoldable pub bookable : Option Resource → Result Resource
bookable none = err not_found
bookable (some r) = if r.is_active then ok r else err not_found

abbrev pub new_booking : ℕ → ℕ → ℕ → CreateBookingDto → Draft → Booking
new_booking id tenant user dto d = record {
  id = id;
  tenant_id = tenant;
  resource_id = d.room.id;
  user_id = user;
  start_time = d.start;
  end_time = d.end;
  status = if needs_approval d.room then pending_approval else confirmed;
  title = dto.title;
  meeting_url = dto.meeting_url;
  redirect_url = [];
  exception_notes = [];
  booking_mode = if is_shared d.room.booking_mode then shared else exclusive;
  custom_field_values = non_empty d.answers;
  services = non_empty dto.services;
  attendees = non_empty dto.attendees;
  cost_center_code = d.code;
  delegated_to = none;
  sync_status = pending;
  is_private = dto.is_private;
  is_recurring = if is_some dto.recurrence_id then true else dto.is_recurring;
  recurrence_id = dto.recurrence_id;
  checked_in_at = none;
  checkin_token = none;
  checkin_token_expires_at = none;
  version = 0;
}

-- The insert, and the messages after the commit.
unfoldable pub insert_booking : Db → Booking → Bool → Db
insert_booking db b suppress =
    let inserted = record db { bookings = b ∷ db.bookings; next_id = suc db.next_id } in
    let sent = send (sync booking_created b.id) (send (emit created b.id) inserted) in
    if suppress then sent else send (notify booking_created b.id) sent

unfoldable pub start_chain : Db → ℕ → Booking → Db
start_chain db now b = if is_pending_approval b.status then materialize db now b else db

module _ (format_to_parts : Text → ℕ → Option Parts) where
  -- The checks up to the insert, in the order of the source.
  unfoldable pub draft : Db → ℕ → ℕ → ℕ → CreateBookingDto → Result Draft
  draft db now tenant user dto =
      let tz : Option Text = (db.customization tenant).timezone in
      valid_window (conflict end_before_start) dto.start_time dto.end_time >>= λ w.
      bookable (find_resource db tenant dto.resource_id) >>= λ r.
      let m : Mapped =
        map_all_day_to_operating_hours format_to_parts tz r.operating_hours w.0 w.1 in
      (do
        assert_can_book db tenant user r
        v ←
            validate format_to_parts db now tenant m.start m.end r.rule_overrides r.region
              m.was_all_day
        assert_within_operating_hours format_to_parts tz r.operating_hours v.0 v.1
        answers ← validate_custom_fields r dto.custom_field_values
        code ← resolve_cost_center db tenant dto.cost_center_code r
        assert_no_conflict db.bookings tenant (related_resource_ids db tenant r) v.0 v.1 none r
        ok (record { room = r; start = v.0; end = v.1; answers = answers; code = code }))

  unfoldable pub create : Db → ℕ → ℕ → ℕ → CreateBookingDto → Bool → Result (Booking × Db)
  create db now tenant user dto suppress = do
    d ← draft db now tenant user dto
    let b = new_booking db.next_id tenant user dto d
    ok (b, start_chain (insert_booking db b suppress) now b)
