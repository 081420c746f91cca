-- ===== src/Bookings/NoOverlap/Pods.antt =====
-- The pods of a shared room: `create` of bookings.service.ts against the room's capacity.
use booking_system.Base.{
  ℕ, ◌≤◌, ◌<◌, ◌≡◌, subst, ap, inl, inr, Bool, true, not, ◌&&◌, Option, none, some, List, [], ◌∷◌,
  Text, ◌==◌, leb, ltb, tally, ok, arith, Bool-cases,
}
use booking_system.Common.Tz.{Parts}
use booking_system.Store.Booking.{Booking, is_released}
use booking_system.Store.Resource.{Resource}
use booking_system.Store.Db.{Db, find_resource}
use booking_system.Bookings.Conflict.{
  related_resource_ids, clashes, is_pod, pod_capacity, assert_no_conflict,
}
use booking_system.Bookings.Create.{CreateBookingDto, create}
use booking_system.Bookings.NoOverlap.Create.{draft-room, draft-free, bookable-eq-ok, created_rows}

-- The booking is an active one of the room at the instant.
abbrev pub holds_at : ℕ → ℕ → ℕ → Booking → Bool
holds_at tenant room t b =
    b.tenant_id == tenant
    && b.resource_id == room
    && not (is_released b.status)
    && leb b.start_time t
    && ltb t b.end_time

tally_le :
    (p q : Booking → Bool) (bs : List Booking)
    → ((b : Booking) → p b ≡ true → q b ≡ true)
    → tally p bs ≤ tally q bs
tally_le p q [] h = omega arith
tally_le p q (b ∷ bs) h =
    let r = tally_le p q bs h in
    elim (Bool-cases (p b)) [ inl e ↦ let f = h b e in ground arith | inr e ↦ ground arith ]

pod-related :
    (db : Db) (tenant : ℕ) (r : Resource)
    → is_pod r ≡ true
    → related_resource_ids db tenant r ≡ r.id ∷ []
unfolding is_pod related_resource_ids
pod-related db tenant r h = ground arith

holds_at-clashes :
    (tenant room t start end : ℕ) (b : Booking)
    → start ≤ t
    → t < end
    → holds_at tenant room t b ≡ true
    → clashes tenant (room ∷ []) start end none b ≡ true
holds_at-clashes tenant room t start end b l u h = ground arith

-- No instant has more active bookings of the room than it has pods.
abbrev pub WithinPods : ℕ → Resource → List Booking → Type 0
WithinPods tenant r bs = (t : ℕ) → tally (holds_at tenant r.id t) bs ≤ pod_capacity r

module _ (bs : List Booking) (db : Db) (tenant : ℕ) (r : Resource) (pod : is_pod r ≡ true) where
  admitted-room :
      (start end t : ℕ)
      → assert_no_conflict bs tenant (related_resource_ids db tenant r) start end none r ≡ ok tt
      → start ≤ t
      → t < end
      → tally (holds_at tenant r.id t) bs < pod_capacity r
  unfolding assert_no_conflict
  admitted-room start end t h l u =
      let f =
        tally_le (holds_at tenant r.id t) (clashes tenant (r.id ∷ []) start end none) bs
          (λ b k. holds_at-clashes tenant r.id t start end b l u k) in
      let e = pod-related db tenant r pod in
      let g : assert_no_conflict bs tenant (r.id ∷ []) start end none r ≡ ok tt = rw e at h in
      ground arith

  insert-WithinPods :
      (b : Booking)
      → b.tenant_id ≡ tenant
      → assert_no_conflict bs tenant
          (related_resource_ids db tenant r)
          b.start_time
          b.end_time
          none
          r
        ≡ ok tt
      → WithinPods tenant r bs
      → WithinPods tenant r (b ∷ bs)
  insert-WithinPods b e h inv t = elim (Bool-cases (holds_at tenant r.id t b)) [
    | inr f ↦ let i = inv t in ground arith
    | inl f ↦
        let i = admitted-room b.start_time b.end_time t h (ground arith) (ground arith) in
        ground arith
  ]

-- Where a shared room holds at each instant no more active bookings than it has pods, it does so
-- after each `create` in it that goes through.
pub create-WithinPods :
    (fmt : Text → ℕ → Option Parts) (db : Db) (now tenant user : ℕ) (dto : CreateBookingDto)
    (suppress : Bool) (r : Resource) (b : Booking) (db' : Db)
    → find_resource db tenant dto.resource_id ≡ some r
    → is_pod r ≡ true
    → WithinPods tenant r db.bookings
    → create fmt db now tenant user dto suppress ≡ ok (b, db')
    → WithinPods tenant r db'.bookings
create-WithinPods fmt db now tenant user dto suppress r b db' found pod inv h =
    let (d, e, q, rows) = created_rows fmt db now tenant user dto suppress b db' h in
    let f =
      bookable-eq-ok (find_resource db tenant dto.resource_id)
        (draft-room fmt db now tenant user dto d e) in
    let same : d.room ≡ r = ground arith in
    let free =
      subst
        (λ x.
          assert_no_conflict db.bookings tenant (related_resource_ids db tenant x) d.start d.end
            none x
          ≡ ok tt)
        same (draft-free fmt db now tenant user dto d e) in
    rw rows (
      insert-WithinPods db.bookings db tenant r pod b (ap (λ (z : Booking). z.tenant_id) q)
        (rw q free) inv)
