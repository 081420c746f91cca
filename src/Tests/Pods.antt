-- ===== src/Tests/Pods.antt =====
-- A shared room at a concrete input.
use booking_system.Base.{◌≡◌, refl, false, true, [], ◌∷◌, ok, arith}
use booking_system.Common.Tz.{utc_to_zoned_wall_clock}
use booking_system.Store.Booking.{Booking, shared}
use booking_system.Store.Resource.{Resource, standalone}
use booking_system.Store.Db.{Db}
use booking_system.Bookings.Conflict.{is_pod, pod_capacity, assert_no_conflict}
use booking_system.Bookings.Rules.{assert_can_book, validate_custom_fields, resolve_cost_center}
use booking_system.Bookings.Validator.{validate, num, local_dates_spanned}
use booking_system.Bookings.Hours.{map_all_day_to_operating_hours, assert_within_operating_hours}
use booking_system.Bookings.Create.{CreateBookingDto, bookable, draft, create}
use booking_system.Bookings.NoOverlap.Pods.{WithinPods, create-WithinPods}
use booking_system.Tests.Data.{hong_kong, hall, office, request, ten}

abbrev pods : Resource
pods = record hall {
  id = 3;
  composite_mode = standalone;
  booking_mode = shared;
  shared_capacity = 2;
}

abbrev desk : Db
desk = record office { bookings = []; resources = pods ∷ [] }

abbrev seat : CreateBookingDto
seat = record request { resource_id = 3 }

created : (b : Booking) × (db' : Db) × (create hong_kong desk ten 9 7 seat false ≡ ok (b, db'))
unfolding create draft bookable assert_can_book validate map_all_day_to_operating_hours
    utc_to_zoned_wall_clock num local_dates_spanned assert_within_operating_hours
    validate_custom_fields resolve_cost_center assert_no_conflict is_pod pod_capacity
created = (_, _, refl)

pods-is_pod : is_pod pods ≡ true
unfolding is_pod
pods-is_pod = refl

desk-WithinPods : WithinPods 9 pods desk.bookings
desk-WithinPods t = omega arith

create-WithinPods_example : WithinPods 9 pods created.1.bookings
create-WithinPods_example =
    create-WithinPods hong_kong desk ten 9 7 seat false pods created.0 created.1 refl pods-is_pod
      desk-WithinPods created.2
