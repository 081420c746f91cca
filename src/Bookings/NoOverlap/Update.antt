-- ===== src/Bookings/NoOverlap/Update.antt =====
-- `applyUpdate` and `update` keep the rooms free of double bookings.
use booking_system.Base.{
  ℕ, ◌+◌, ◌≡◌, sym, ap, subst, ◌∙◌, ◌⊎◌, inl, inr, Bool, true, false, not, ◌&&◌, ◌||◌, Option, some,
  Text, ◌==◌, ok, arith, In, find-In, Bool-cases, Option-cases, Result-cases, is_some,
}
use booking_system.Common.Tz.{Parts}
use booking_system.Store.Booking.{Booking, Answers, is_released, is_terminal}
use booking_system.Store.Resource.{Resource}
use booking_system.Store.Db.{Db, find_booking, find_resource, save_booking}
use booking_system.Bookings.Conflict.{related_resource_ids, assert_no_conflict}
use booking_system.Bookings.Conflict.Composite.{IsComposite}
use booking_system.Bookings.Create.{bookable}
use booking_system.Bookings.NoOverlap.Writes.{
  NoDoubleBooking, IsApart, save-NoDoubleBooking, Narrows, IsApart-Narrows, NoDoubleBooking-IsApart,
}
use booking_system.Bookings.NoOverlap.Checked.{checked-IsApart}
use booking_system.Bookings.NoOverlap.Create.{found_resource}
use booking_system.Bookings.Update.{
  target_of, UpdateBookingDto, edit_answers, edit_fields, reschedule, maybe_reschedule,
  apply_update,
}

-- What the conflict check reads of a booking.
pub record SamePlace (b c : Booking) : Type 0 where
  pub id : c.id ≡ b.id
  pub tenant : c.tenant_id ≡ b.tenant_id
  pub room : c.resource_id ≡ b.resource_id
  pub start : c.start_time ≡ b.start_time
  pub end : c.end_time ≡ b.end_time
  pub status : c.status ≡ b.status

edit_answers-SamePlace :
    (db : Db) (tenant : ℕ) (b : Booking) (o : Option Answers) {c : Booking}
    → edit_answers db tenant b o ≡ ok c
    → SamePlace b c
unfolding edit_answers
edit_answers-SamePlace db tenant b o h = ground arith

module _ (fmt : Text → ℕ → Option Parts) (db : Db) (now tenant : ℕ) (b : Booking)
    (dto : UpdateBookingDto) where
  -- A booking that is moved was checked at its new place.
  record IsMoved (c : Booking) : Type 0 where
    target : Resource
    found : bookable (find_resource db tenant (target_of dto.resource_id b.resource_id)) ≡ ok target
    id : c.id ≡ b.id
    tenant_id : c.tenant_id ≡ b.tenant_id
    room : c.resource_id ≡ target.id
    free :
        assert_no_conflict db.bookings tenant
          (related_resource_ids db tenant target)
          c.start_time
          c.end_time
          (some b.id)
          target
        ≡ ok tt

  reschedule_ok :
      {c : Booking}
      → reschedule fmt db now tenant b (target_of dto.resource_id b.resource_id) dto ≡ ok c
      → IsMoved c
  unfolding reschedule
  reschedule_ok {c} h =
      elim (Result-cases
        (bookable (find_resource db tenant (target_of dto.resource_id b.resource_id)))) [
          | inl (r, e) ↦ record {
            target = r;
            found = e;
            id = ground arith;
            tenant_id = ground arith;
            room = ground arith;
            free = ground arith;
          }
          | inr (x, e) ↦ absurd (ground arith)
        ]

  maybe_reschedule_ok :
      {c : Booking} → maybe_reschedule fmt db now tenant b dto ≡ ok c → (c ≡ b) ⊎ IsMoved c
  unfolding maybe_reschedule
  maybe_reschedule_ok {c} h =
      let moves : Bool =
        is_some dto.start_time
        || is_some dto.end_time
        || not (target_of dto.resource_id b.resource_id == b.resource_id) in
      elim (Bool-cases moves) [
        | inl e ↦ inr (reschedule_ok (ground arith))
        | inr e ↦ inl (ground arith)
      ]

  -- Wherever it ends up, the booking is apart from the others.
  placed-IsApart :
      (c : Booking)
      → IsComposite db.resources
      → NoDoubleBooking db.resources db.bookings
      → In b db.bookings
      → b.tenant_id ≡ tenant
      → maybe_reschedule fmt db now tenant b dto ≡ ok c
      → IsApart db.resources db.bookings c
  placed-IsApart c wf inv i te h = place (maybe_reschedule_ok h)
    where
      place : (c ≡ b) ⊎ IsMoved c → IsApart db.resources db.bookings c
      place (inl e) =
          subst (IsApart db.resources db.bookings) (sym e)
            (NoDoubleBooking-IsApart db.resources db.bookings b inv i)
      place (inr m) =
          let f = found_resource db tenant (target_of dto.resource_id b.resource_id) m.found in
          checked-IsApart db wf m.target f.0 tenant c (some b.id) f.1 (m.tenant_id ∙ te) m.room
            (λ a n. let e : c.id ≡ b.id = m.id in ground arith) m.free

SamePlace-Narrows :
    (b c d : Booking) → SamePlace b c → d ≡ record c { version = c.version + 1 } → Narrows b d
SamePlace-Narrows b c d s e = record {
  id = ap (λ (z : Booking). z.id) e ∙ s.id;
  tenant = ap (λ (z : Booking). z.tenant_id) e ∙ s.tenant;
  room = ap (λ (z : Booking). z.resource_id) e ∙ s.room;
  start = ap (λ (z : Booking). z.start_time) e ∙ s.start;
  end = ap (λ (z : Booking). z.end_time) e ∙ s.end;
  active = λ h. subst (λ k. is_released k ≡ false) (ap (λ (z : Booking). z.status) e ∙ s.status) h;
  settled =
      λ h. subst (λ k. is_terminal k ≡ true) (sym (ap (λ (z : Booking). z.status) e ∙ s.status)) h;
}

module _ (fmt : Text → ℕ → Option Parts) (db : Db) (now tenant user : ℕ) (role : Text) (id : ℕ)
    (dto : UpdateBookingDto) where
  -- The steps of a successful update.
  record Updated (saved : Booking) (db' : Db) : Type 0 where
    before : Booking
    placed : Booking
    edited : Booking
    found : find_booking db tenant id ≡ some before
    live : is_terminal before.status ≡ false
    movable : maybe_reschedule fmt db now tenant before dto ≡ ok placed
    same : SamePlace placed edited
    bumped : saved ≡ record edited { version = edited.version + 1 }
    rows : db' ≡ save_booking db saved

  apply_update_ok :
      {saved : Booking} {db' : Db}
      → apply_update fmt db now tenant user role id dto ≡ ok (saved, db')
      → Updated saved db'
  unfolding apply_update
  apply_update_ok {saved} {db'} h = elim (Option-cases (find_booking db tenant id)) [
    | inl e ↦ absurd (ground arith)
    | inr (b, e) ↦ elim (Result-cases (maybe_reschedule fmt db now tenant b dto)) [
      | inr (x, f) ↦ absurd (ground arith)
      | inl (c, f) ↦
          elim (Result-cases (edit_answers db tenant (edit_fields dto c) dto.custom_field_values)) [
            | inr (x, g) ↦ absurd (ground arith)
            | inl (d, g) ↦ record {
              before = b;
              placed = c;
              edited = d;
              found = e;
              live = ground arith;
              movable = f;
              same =
                  (let s =
                      edit_answers-SamePlace db tenant (edit_fields dto c) dto.custom_field_values
                        g in
                    ground arith);
              bumped = ground arith;
              rows = ground arith;
            }
          ]
    ]
  ]

  -- A successful update, to whatever room and time, leaves no two bookings in the same space.
  pub apply_update-NoDoubleBooking :
      (saved : Booking) (db' : Db)
      → IsComposite db.resources
      → NoDoubleBooking db.resources db.bookings
      → apply_update fmt db now tenant user role id dto ≡ ok (saved, db')
      → NoDoubleBooking db.resources db'.bookings
  apply_update-NoDoubleBooking saved db' wf inv h =
      let u = apply_update_ok h in
      let f = find-In (λ (b : Booking). b.id == id && b.tenant_id == tenant) db.bookings u.found in
      let te : u.before.tenant_id ≡ tenant = ground arith in
      let apart = placed-IsApart fmt db now tenant u.before dto u.placed wf inv f.0 te u.movable in
      subst (λ (d : Db). NoDoubleBooking db.resources d.bookings) (sym u.rows)
        (save-NoDoubleBooking db.resources db.bookings saved inv (
          IsApart-Narrows db.resources db.bookings u.placed saved
            (SamePlace-Narrows u.placed u.edited saved u.same u.bumped) apart))

  -- An update is of a booking that is not settled.
  pub apply_update-live :
      (saved : Booking) (db' : Db)
      → apply_update fmt db now tenant user role id dto ≡ ok (saved, db')
      → (b : Booking) × In b db.bookings
        × (is_terminal b.status ≡ false)
        × (saved.id ≡ b.id)
        × (db' ≡ save_booking db saved)
  apply_update-live saved db' h =
      let u = apply_update_ok h in
      let f = find-In (λ (b : Booking). b.id == id && b.tenant_id == tenant) db.bookings u.found in
      (
        u.before,
        f.0,
        u.live,
        ap (λ (z : Booking). z.id) u.bumped
            ∙ u.same.id
            ∙ kept (maybe_reschedule_ok fmt db now tenant u.before dto u.movable),
        u.rows,
      )
    where
      kept : {b c : Booking} → (c ≡ b) ⊎ IsMoved fmt db now tenant b dto c → c.id ≡ b.id
      kept (inl e) = ap (λ (z : Booking). z.id) e
      kept (inr m) = m.id
