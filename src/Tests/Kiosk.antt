-- ===== src/Tests/Kiosk.antt =====
-- The kiosk at concrete inputs.
use booking_system.Base.{
  ℕ, ◌+◌, ◌*◌, ◌<◌, ◌≤◌, ◌≡◌, refl, inl, inr, false, some, [], ◌∷◌, codes, ok, err, arith, In,
}
use booking_system.Store.Booking.{Booking}
use booking_system.Store.Db.{Db}
use booking_system.Bookings.Conflict.Composite.{Occupies}
use booking_system.Bookings.NoOverlap.Writes.{NoDoubleBooking}
use booking_system.Kiosk.{Env, quick_book}
use booking_system.Kiosk.Walkin.{IsTrusted, quick_book-free, quick_book-double_books}
use booking_system.Tests.Data.{office, meeting, room, ten}

abbrev display : Env
display = record {
  tokens = (9, codes "k9") ∷ [];
  token = [];
  user = some 3;
  insecure_local = false;
}

-- The hall is taken at the door while its part is in a meeting.
walked_in :
    (v : Booking × Db) × (quick_book display office
        (ten + 600000)
        1
        30
        (codes "Walk-in")
        (codes "k9")
      ≡ ok (v.0, v.1))
unfolding quick_book booking_system.Kiosk.assert_token booking_system.Kiosk.expected_token
    booking_system.Kiosk.tenant_token booking_system.Base.text_eq
walked_in = ((_, _), refl)

quick_book-free_example :
    IsTrusted display (codes "k9") walked_in.0.0.tenant_id
    × ((a : Booking) (t : ℕ)
        → In a office.bookings
        → a.resource_id ≡ walked_in.0.0.resource_id
        → Occupies a t
        → ¬ Occupies walked_in.0.0 t)
quick_book-free_example =
    quick_book-free display office (ten + 600000) 1 30 (codes "Walk-in") (codes "k9") walked_in.0.0
      walked_in.0.1 walked_in.1

in_tenant : room.tenant_id ≡ walked_in.0.0.tenant_id
unfolding walked_in
in_tenant = refl

in_hall : room.parent_resource_id ≡ some walked_in.0.0.resource_id
unfolding walked_in
in_hall = refl

same_tenant : meeting.tenant_id ≡ walked_in.0.0.tenant_id
unfolding walked_in
same_tenant = refl

quick_book-double_books_example : ¬ NoDoubleBooking office.resources walked_in.0.1.bookings
quick_book-double_books_example =
    quick_book-double_books display office (ten + 600000) 1 30 (codes "Walk-in") (codes "k9")
      walked_in.0.0 meeting walked_in.0.1 room walked_in.1 (inr (inl refl)) in_tenant in_hall
      (inl refl) refl same_tenant (omega arith) (refl, omega arith, omega arith) (omega arith)
