-- ===== src/Bookings/NoOverlap/Create.antt =====
-- `create` keeps the rooms free of double bookings.
use booking_system.Base.{
  ℕ, ◌≡◌, refl, ap, Bool, Option, none, some, ◌∷◌, Text, ◌==◌, ◌&&◌, ok, arith, In, find-In,
  >>=-eq-ok,
}
use booking_system.Common.Tz.{Parts}
use booking_system.Store.Booking.{Booking}
use booking_system.Store.Resource.{Resource}
use booking_system.Store.Db.{Db, find_resource}
use booking_system.Approvals.Chain.{materialize-bookings}
use booking_system.Bookings.Conflict.{related_resource_ids, assert_no_conflict}
use booking_system.Bookings.Conflict.Composite.{IsComposite}
use booking_system.Bookings.NoOverlap.Checked.{checked-IsApart}
use booking_system.Bookings.NoOverlap.Writes.{NoDoubleBooking, insert-NoDoubleBooking}
use booking_system.Bookings.Create.{
  CreateBookingDto, Draft, bookable, draft, create, new_booking, insert_booking, start_chain,
}

pub bookable-eq-ok : (o : Option Resource) {r : Resource} → bookable o ≡ ok r → o ≡ some r
unfolding bookable
bookable-eq-ok o h = ground arith

pub found_resource :
    (db : Db) (tenant id : ℕ) {r : Resource}
    → bookable (find_resource db tenant id) ≡ ok r
    → In r db.resources × (r.tenant_id ≡ tenant)
found_resource db tenant id {r} h =
    let f =
      find-In (λ (s : Resource). s.id == id && s.tenant_id == tenant) db.resources
        (bookable-eq-ok _ h) in
    (f.0, ground arith)

module _ (fmt : Text → ℕ → Option Parts) (db : Db) (now tenant user : ℕ)
    (dto : CreateBookingDto) where
  -- What a draft was checked for.
  pub draft-room :
      (d : Draft)
      → draft fmt db now tenant user dto ≡ ok d
      → bookable (find_resource db tenant dto.resource_id) ≡ ok d.room
  unfolding draft
  draft-room d h = ground arith

  pub draft-free :
      (d : Draft)
      → draft fmt db now tenant user dto ≡ ok d
      → assert_no_conflict db.bookings tenant
          (related_resource_ids db tenant d.room)
          d.start
          d.end
          none
          d.room
        ≡ ok tt
  unfolding draft
  draft-free d h = ground arith

start_chain-bookings :
    (db : Db) (now : ℕ) (b : Booking) → (start_chain db now b).bookings ≡ db.bookings
unfolding start_chain
start_chain-bookings db now b = ground (arith, materialize-bookings db now b)

insert_booking-bookings :
    (db : Db) (b : Booking) (suppress : Bool)
    → (insert_booking db b suppress).bookings ≡ b ∷ db.bookings
unfolding insert_booking
insert_booking-bookings db b suppress = ground arith

module _ (fmt : Text → ℕ → Option Parts) (db : Db) (now tenant user : ℕ)
    (dto : CreateBookingDto) where
  pub created_rows :
      (suppress : Bool) (b : Booking) (db' : Db)
      → create fmt db now tenant user dto suppress ≡ ok (b, db')
      → (d : Draft) × (draft fmt db now tenant user dto ≡ ok d)
        × (b ≡ new_booking db.next_id tenant user dto d)
        × (db'.bookings ≡ b ∷ db.bookings)
  unfolding create
  created_rows suppress b db' h =
      let (d, e, q) =
        >>=-eq-ok (draft fmt db now tenant user dto)
          (λ (d : Draft). ok (
            new_booking db.next_id tenant user dto d,
            start_chain (insert_booking db (new_booking db.next_id tenant user dto d) suppress) now
                (new_booking db.next_id tenant user dto d),
          ))
          h in
      let n = new_booking db.next_id tenant user dto d in
      (
        d,
        e,
        ground arith,
        ground (
          arith,
          start_chain-bookings (insert_booking db n suppress) now n,
          insert_booking-bookings db n suppress,
        ),
      )

  -- A successful `create` leaves no two bookings in the same space at one instant.
  pub create-NoDoubleBooking :
      (suppress : Bool) (b : Booking) (db' : Db)
      → IsComposite db.resources
      → NoDoubleBooking db.resources db.bookings
      → create fmt db now tenant user dto suppress ≡ ok (b, db')
      → NoDoubleBooking db.resources db'.bookings
  create-NoDoubleBooking suppress b db' wf inv h =
      let (d, e, q, rows) = created_rows suppress b db' h in
      let f =
        found_resource db tenant dto.resource_id (draft-room fmt db now tenant user dto d e) in
      rw rows (
        insert-NoDoubleBooking db.resources db.bookings b inv (
          checked-IsApart db wf d.room f.0 tenant b none f.1 (ap (λ (z : Booking). z.tenant_id) q)
            (ap (λ (z : Booking). z.resource_id) q) (λ a n. refl)
            (rw q (draft-free fmt db now tenant user dto d e))))
