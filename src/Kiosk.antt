-- ===== src/Kiosk.antt =====
-- modules/kiosk/kiosk.service.ts: the door display and the walk-in booking.
-- The environment is a parameter: the tokens of KIOSK_TOKENS by tenant, KIOSK_TOKEN, KIOSK_BOOKING_USER_ID and
-- `allowInsecureLocal`. An empty text is an unset variable.
pub mod Walkin
use booking_system.Base.{
  ℕ, suc, ◌+◌, ◌-◌, ◌*◌, ◌/◌, Bool, true, false, not, ◌&&◌, ◌||◌, Option, none, some, or_else, List,
  [], ◌∷◌, map, Text, text_eq, is_empty, any, find, keep, if◌then◌else◌, ◌==◌, ltb, leb, Result, ok,
  err, ◌>>=◌, ◌>>◌, throw_if, or_throw, bad_request, not_found, forbidden, unauthorized,
  quick_book_not_configured, slot_occupied,
}
use booking_system.Common.Tz.{day_ms, minute_ms}
use booking_system.Store.Booking.{
  Booking, BookingStatus, confirmed, checked_in, exclusive, pending, is_released, is_confirmed,
  is_checked_in,
}
use booking_system.Store.Resource.{Resource}
use booking_system.Store.Db.{Db}
use booking_system.Bookings.AutoRelease.{by_start}
use booking_system.Bookings.Conflict.{overlaps}

pub record Env : Type 0 where
  pub tokens : List (ℕ × Text)
  pub token : Text
  pub user : Option ℕ
  pub insecure_local : Bool

-- `tenantTokens().get(tenantId)`: the last pair of the tenant.
unfoldable pub tenant_token : List (ℕ × Text) → ℕ → Option Text
tenant_token [] tenant = none
tenant_token ((t, token) ∷ ts) tenant =
    let rest = tenant_token ts tenant in if t == tenant then some (or_else rest token) else rest

-- `a || b || ''`
unfoldable pub expected_token : Env → ℕ → Text
expected_token env tenant =
    let own = or_else (tenant_token env.tokens tenant) [] in if is_empty own then env.token else own

unfoldable pub assert_token : Env → Text → ℕ → Result (Unit {0})
assert_token env token tenant =
    let expected = expected_token env tenant in
    if is_empty expected
    then throw_if (not env.insecure_local) unauthorized
    else throw_if (is_empty token || not (text_eq token expected)) unauthorized

abbrev pub find_any : Db → ℕ → Option Resource
find_any db id = find (λ (r : Resource). r.id == id) db.resources

-- The last millisecond of the day.
abbrev pub end_of_day : ℕ → ℕ
end_of_day now = now / day_ms * day_ms + (day_ms - 1)

abbrev pub shown : ℕ → Booking → Bool
shown now b =
    (is_confirmed b.status || is_checked_in b.status)
    && leb b.start_time (end_of_day now)
    && leb now b.end_time

unfoldable pub todays : Db → ℕ → ℕ → List Booking
todays db now resource =
    keep (shown now) (by_start (keep (λ (b : Booking). b.resource_id == resource) db.bookings))

-- What the corridor sees of a booking: its times and the room's name.
pub record Slot : Type 0 where
  pub start : ℕ
  pub end : ℕ
  pub room : Text

abbrev pub project : Text → Booking → Slot
project room b = record { start = b.start_time; end = b.end_time; room = room }

abbrev pub project_opt : Text → Option Booking → Option Slot
project_opt room none = none
project_opt room (some b) = some (project room b)

pub record Display : Type 0 where
  pub resource : ℕ
  pub name : Text
  pub now : ℕ
  pub current : Option Slot
  pub next : Option Slot
  pub agenda : List Slot

unfoldable pub state : Env → Db → ℕ → ℕ → Text → Result Display
state env db now id token = do
  r ← or_throw (find_any db id) not_found
  assert_token env token r.tenant_id
  let bs = todays db now id
  ok (record {
    resource = r.id;
    name = r.name;
    now = now;
    current =
        project_opt r.name (find (λ (b : Booking). leb b.start_time now && ltb now b.end_time) bs);
    next = project_opt r.name (find (λ (b : Booking). ltb now b.start_time) bs);
    agenda = map (project r.name) bs;
  })

-- The rows that the query of `quickBook` counts.
abbrev pub occupies : ℕ → ℕ → ℕ → Booking → Bool
occupies resource start end b =
    b.resource_id == resource
    && not (is_released b.status)
    && overlaps b.start_time b.end_time start end

abbrev pub walk_in : ℕ → Resource → ℕ → ℕ → ℕ → Text → Booking
walk_in id r user start end title = record {
  id = id;
  tenant_id = r.tenant_id;
  resource_id = r.id;
  user_id = user;
  start_time = start;
  end_time = end;
  status = confirmed;
  title = title;
  meeting_url = [];
  redirect_url = [];
  exception_notes = [];
  booking_mode = exclusive;
  custom_field_values = none;
  services = none;
  attendees = none;
  cost_center_code = r.cost_center_code;
  delegated_to = none;
  sync_status = pending;
  is_private = false;
  is_recurring = false;
  recurrence_id = none;
  checked_in_at = none;
  checkin_token = none;
  checkin_token_expires_at = none;
  version = 0;
}

unfoldable pub quick_book : Env → Db → ℕ → ℕ → ℕ → Text → Text → Result (Booking × Db)
quick_book env db now id minutes title token = do
  r ← or_throw (find_any db id) not_found
  assert_token env token r.tenant_id
  user ← or_throw env.user (bad_request quick_book_not_configured)
  let end = now + minutes * minute_ms
  throw_if (any (occupies id now end) db.bookings) (bad_request slot_occupied)
  let b = walk_in db.next_id r user now end title
  ok (b, record db { bookings = b ∷ db.bookings; next_id = suc db.next_id })
