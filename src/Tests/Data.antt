-- ===== src/Tests/Data.antt =====
-- A tenant in Hong Kong with a hall and a part of it.
use booking_system.Base.{ℕ, ◌+◌, ◌/◌, ◌%◌, true, false, Option, none, some, [], ◌∷◌, Text, codes}
use booking_system.Common.Tz.{Parts, day_ms}
use booking_system.Store.Booking.{Booking, confirmed, exclusive, SyncStatus}
use booking_system.Store.Resource.{Resource, RuleOverrides, parent, child}
use booking_system.Store.Tenant.{Customization}
use booking_system.Store.Db.{Db}
use booking_system.Bookings.Create.{CreateBookingDto}

-- A clock eight hours before UTC, in every zone.
abbrev pub hong_kong : Text → ℕ → Option Parts
hong_kong tz t =
    let l : ℕ = t + 28800000 in
    some (record {
      weekday = some ((l / day_ms + 4) % 7);
      date = l / day_ms;
      hour = l % day_ms / 3600000;
      minute = l % 3600000 / 60000;
      second = l % 60000 / 1000;
    })

abbrev pub no_overrides : RuleOverrides
no_overrides = record {
  min_duration_minutes = none;
  max_duration_minutes = none;
  booking_horizon_days = none;
  grace_minutes = none;
  requires_approval = none;
}

abbrev pub hall : Resource
hall = record {
  id = 1;
  tenant_id = 9;
  name = [];
  region = [];
  asset_type = [];
  is_active = true;
  is_restricted = false;
  requires_approval = false;
  parent_resource_id = none;
  composite_mode = parent;
  department_id = none;
  booking_mode = exclusive;
  shared_capacity = 1;
  operating_hours = none;
  custom_fields = [];
  rule_overrides = no_overrides;
  cost_center_code = none;
}

abbrev pub room : Resource
room = record hall { id = 2; parent_resource_id = some 1; composite_mode = child }

abbrev pub settings : Customization
settings = record {
  timezone = none;
  min_duration_minutes = none;
  max_duration_minutes = none;
  booking_horizon_days = none;
  blackout_dates = [];
  cost_centers = [];
  auto_release_enabled = none;
  auto_release_grace_minutes = none;
}

-- 20 000 days after the epoch, 10:00 to 11:00 in Hong Kong.
abbrev pub ten : ℕ
ten = 1728007200000

abbrev pub meeting : Booking
meeting = record {
  id = 100;
  tenant_id = 9;
  resource_id = 2;
  user_id = 7;
  start_time = ten;
  end_time = ten + 3600000;
  status = confirmed;
  title = codes "Plan";
  meeting_url = [];
  redirect_url = [];
  exception_notes = [];
  booking_mode = exclusive;
  custom_field_values = none;
  services = none;
  attendees = none;
  cost_center_code = none;
  delegated_to = none;
  sync_status = SyncStatus.pending;
  is_private = true;
  is_recurring = false;
  recurrence_id = none;
  checked_in_at = none;
  checkin_token = some 55;
  checkin_token_expires_at = some (ten + 86400000);
  version = 0;
}

abbrev pub office : Db
office = record {
  bookings = meeting ∷ [];
  resources = hall ∷ room ∷ [];
  users = [];
  departments = [];
  holidays = [];
  customization = λ t. settings;
  rules = [];
  steps = [];
  approvals = [];
  effects = [];
  next_id = 101;
}

-- A request for the whole hall, one hour from 13:00.
abbrev pub request : CreateBookingDto
request = record {
  resource_id = 1;
  start_time = some (ten + 10800000);
  end_time = some (ten + 14400000);
  title = [];
  meeting_url = [];
  is_private = false;
  custom_field_values = [];
  services = [];
  attendees = [];
  cost_center_code = none;
  recurrence_id = none;
  is_recurring = false;
}
