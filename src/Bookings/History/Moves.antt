-- ===== src/Bookings/History/Moves.antt =====
-- Each call of a history as a move of the bookings.
use booking_system.Base.{ℕ, ◌≡◌, refl, Bool, Option, Text, Result, ok, err, arith}
use booking_system.Common.Tz.{Parts}
use booking_system.Store.Booking.{Booking}
use booking_system.Store.Db.{Db}
use booking_system.Bookings.NoOverlap.Writes.{Evolves, Evolves-eq}
use booking_system.Bookings.NoOverlap.Lifecycle.{
  cancel-Evolves, checkin_by_booking-Evolves, redeem_token-Evolves, mark_no_show-Evolves,
  mark_attended-Evolves, tick-Evolves, issue_token-Evolves,
}
use booking_system.Bookings.Create.{CreateBookingDto, create}
use booking_system.Bookings.Update.{UpdateBookingDto, apply_update, update}
use booking_system.Bookings.Cancel.{cancel}
use booking_system.Bookings.Checkin.{
  issue_token, checkin_by_booking, redeem_token, mark_no_show, mark_attended,
}
use booking_system.Bookings.History.Rooms.{
  Keeps, cancel-Keeps, mark_no_show-Keeps, mark_attended-Keeps, checkin_by_booking-Keeps,
  redeem_token-Keeps, tick-Keeps, issue_token-Keeps, create-Keeps, update_ok, apply_update-Keeps,
  Keeps-trans,
}
use booking_system.Bookings.History.{
  Call, creates, updates, cancels, issues, checks_in, redeems, marks_no_show, marks_attended, ticks,
  after, issued, step,
}

pub after_cases {ℓ} :
    {A : Type ℓ} (P : Db → Type 0) (db : Db) (r : Result (A × Db))
    → P db
    → ((a : A) (db' : Db) → r ≡ ok (a, db') → P db')
    → P (after db r)
after_cases P db (ok (a, db')) p h = h a db' refl
after_cases P db (err e) p h = p

issued_cases :
    (P : Db → Type 0) (db : Db) (r : Result (ℕ × ℕ × Db))
    → P db
    → ((t e : ℕ) (db' : Db) → r ≡ ok (t, e, db') → P db')
    → P (issued db r)
issued_cases P db (ok (t, e, db')) p h = h t e db' refl
issued_cases P db (err x) p h = p

-- What one call does to the database: old rows are narrowed, a booking is created, or one is updated.
pub data Move (fmt : Text → ℕ → Option Parts) (db db' : Db) : Type 0 where
  quiet : Keeps db db' → Evolves db.bookings db'.bookings → Move fmt db db'
  adds :
      (now tenant user : ℕ) (dto : CreateBookingDto) (s : Bool) (b : Booking)
      → Keeps db db'
      → create fmt db now tenant user dto s ≡ ok (b, db')
      → Move fmt db db'
  edits :
      (now tenant user : ℕ) (role : Text) (id : ℕ) (dto : UpdateBookingDto) (b : Booking) (mid : Db)
      → Keeps db db'
      → apply_update fmt db now tenant user role id dto ≡ ok (b, mid)
      → db'.bookings ≡ mid.bookings
      → Move fmt db db'

unchanged : (fmt : Text → ℕ → Option Parts) (db : Db) → Move fmt db db
unchanged fmt db = quiet (refl, omega arith) (Evolves-eq db.bookings db.bookings refl)

module _ (fmt : Text → ℕ → Option Parts) where
  -- Every call makes one of the moves, also where it throws.
  pub step-Move : (db : Db) (now : ℕ) (c : Call) → Move fmt db (step fmt db (now, c))
  unfolding step
  step-Move db now (creates tenant user dto s) =
      after_cases (Move fmt db) db (create fmt db now tenant user dto s) (unchanged fmt db)
        λ b db' h.
          adds now tenant user dto s b (create-Keeps fmt db now tenant user dto s b db' h) h
  step-Move db now (updates tenant user role id dto) =
      after_cases (Move fmt db) db (update fmt db now tenant user role id dto) (unchanged fmt db)
        λ b db' h.
          let (mid, e, rows, k) = update_ok fmt db now tenant user role id dto b db' h in
          edits now tenant user role id dto b mid
            (Keeps-trans db mid db' (apply_update-Keeps fmt db now tenant user role id dto b mid e)
              k)
            e rows
  step-Move db now (cancels tenant user role id reason) =
      after_cases (Move fmt db) db (cancel db tenant user role id reason) (unchanged fmt db)
        λ b db' h.
          quiet (cancel-Keeps db tenant user role id reason b db' h)
            (cancel-Evolves db tenant user role id reason b h)
  step-Move db now (checks_in tenant user admin id) =
      after_cases (Move fmt db) db (checkin_by_booking db now tenant user admin id)
        (unchanged fmt db)
        λ b db' h.
          quiet (checkin_by_booking-Keeps db now tenant user admin id b db' h)
            (checkin_by_booking-Evolves db now tenant user admin id b h)
  step-Move db now (redeems token) =
      after_cases (Move fmt db) db (redeem_token db now token) (unchanged fmt db) λ b db' h.
        quiet (redeem_token-Keeps db now token b db' h) (redeem_token-Evolves db now token b h)
  step-Move db now (marks_no_show tenant id reason) =
      after_cases (Move fmt db) db (mark_no_show db tenant id reason) (unchanged fmt db) λ b db' h.
        quiet (mark_no_show-Keeps db tenant id reason b db' h)
          (mark_no_show-Evolves db tenant id reason b h)
  step-Move db now (marks_attended tenant id) =
      after_cases (Move fmt db) db (mark_attended db tenant id) (unchanged fmt db) λ b db' h.
        quiet (mark_attended-Keeps db tenant id b db' h) (mark_attended-Evolves db tenant id b h)
  step-Move db now (issues token tenant user admin id) =
      issued_cases (Move fmt db) db (issue_token db now token tenant user admin id)
        (unchanged fmt db)
        λ t e db' h.
          quiet (issue_token-Keeps db now token tenant user admin id t e db' h)
            (issue_token-Evolves db now token tenant user admin id t e db' h)
  step-Move db now (ticks env) = quiet (tick-Keeps env db now) (tick-Evolves env db now)
