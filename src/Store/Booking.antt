-- ===== src/Store/Booking.antt =====
-- modules/bookings/booking.entity.ts
use booking_system.Base.{ℕ, Bool, true, false, Option, List, Text}

pub data BookingStatus : Type 0 where
  confirmed pending_approval cancelled checked_in no_show attended exception : BookingStatus

pub data SyncStatus : Type 0 where
  pending synced failed : SyncStatus

-- 'exclusive' and 'shared'; the code tests for 'shared' only.
pub data BookingMode : Type 0 where
  exclusive shared : BookingMode

-- An answer to a custom field, by what the emptiness test tells apart: null, a string, an array,
-- and any other JSON value.
pub data Answer : Type 0 where
  null : Answer
  text : Text → Answer
  items : List Text → Answer
  other : ℕ → Answer

abbrev pub Answers : Type 0
Answers = List (Text × Answer)

pub record Booking : Type 0 where
  pub id : ℕ
  pub tenant_id : ℕ
  pub resource_id : ℕ
  pub user_id : ℕ
  pub start_time : ℕ
  pub end_time : ℕ
  pub status : BookingStatus
  pub title : Text
  pub meeting_url : Text
  pub redirect_url : Text
  pub exception_notes : Text
  pub booking_mode : BookingMode
  pub custom_field_values : Option Answers
  pub services : Option (List Text)
  pub attendees : Option (List Text)
  pub cost_center_code : Option Text
  pub delegated_to : Option ℕ
  pub sync_status : SyncStatus
  pub is_private : Bool
  pub is_recurring : Bool
  pub recurrence_id : Option ℕ
  pub checked_in_at : Option ℕ
  pub checkin_token : Option ℕ
  pub checkin_token_expires_at : Option ℕ
  pub version : ℕ

-- `status IN ('Cancelled', 'No Show')`: the booking holds no slot.
abbrev pub is_released : BookingStatus → Bool
is_released cancelled = true
is_released no_show = true
is_released _ = false

-- `TERMINAL_STATUSES.includes(status)` of bookings.service.ts.
abbrev pub is_terminal : BookingStatus → Bool
is_terminal cancelled = true
is_terminal no_show = true
is_terminal checked_in = true
is_terminal attended = true
is_terminal _ = false

abbrev pub is_confirmed : BookingStatus → Bool
is_confirmed confirmed = true
is_confirmed _ = false

abbrev pub is_pending_approval : BookingStatus → Bool
is_pending_approval pending_approval = true
is_pending_approval _ = false

abbrev pub is_cancelled : BookingStatus → Bool
is_cancelled cancelled = true
is_cancelled _ = false

abbrev pub is_checked_in : BookingStatus → Bool
is_checked_in checked_in = true
is_checked_in _ = false

abbrev pub is_attended : BookingStatus → Bool
is_attended attended = true
is_attended _ = false

abbrev pub is_shared : BookingMode → Bool
is_shared shared = true
is_shared exclusive = false
