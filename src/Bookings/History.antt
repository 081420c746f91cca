-- ===== src/Bookings/History.antt =====
-- The calls of bookings.service.ts and checkin.service.ts that write single bookings, and the auto-release tick, one after
-- the other in any order; the series calls stand in Recurrence. Each call is one step, which the row locks give to
-- create and to an update that moves a booking; most others find and save without a lock, and are taken one at a time.
-- A call that throws leaves the database as it was.
pub mod Rooms
pub mod Moves
pub mod Safety
use booking_system.Base.{ℕ, Bool, Option, List, [], ◌∷◌, Text, Result, ok, err}
use booking_system.Common.Tz.{Parts}
use booking_system.Store.Booking.{Booking}
use booking_system.Store.Db.{Db}
use booking_system.Bookings.Create.{CreateBookingDto, create}
use booking_system.Bookings.Update.{UpdateBookingDto, update}
use booking_system.Bookings.Cancel.{cancel}
use booking_system.Bookings.Checkin.{
  issue_token, checkin_by_booking, redeem_token, mark_no_show, mark_attended,
}
use booking_system.Bookings.AutoRelease.{Env, tick}

pub data Call : Type 0 where
  creates : (tenant user : ℕ) → CreateBookingDto → Bool → Call
  updates : (tenant user : ℕ) → Text → ℕ → UpdateBookingDto → Call
  cancels : (tenant user : ℕ) → Text → ℕ → Text → Call
  issues : (token tenant user : ℕ) → Bool → ℕ → Call
  checks_in : (tenant user : ℕ) → Bool → ℕ → Call
  redeems : ℕ → Call
  marks_no_show : (tenant id : ℕ) → Text → Call
  marks_attended : (tenant id : ℕ) → Call
  ticks : Env → Call

abbrev pub after {ℓ} : {A : Type ℓ} → Db → Result (A × Db) → Db
after db (ok r) = r.1
after db (err e) = db

abbrev pub issued : Db → Result (ℕ × ℕ × Db) → Db
issued db (ok r) = r.2
issued db (err e) = db

module _ (format_to_parts : Text → ℕ → Option Parts) where
  unfoldable pub step : Db → ℕ × Call → Db
  step db (now, creates tenant user dto suppress) =
      after db (create format_to_parts db now tenant user dto suppress)
  step db (now, updates tenant user role id dto) =
      after db (update format_to_parts db now tenant user role id dto)
  step db (now, cancels tenant user role id reason) =
      after db (cancel db tenant user role id reason)
  step db (now, issues token tenant user admin id) =
      issued db (issue_token db now token tenant user admin id)
  step db (now, checks_in tenant user admin id) =
      after db (checkin_by_booking db now tenant user admin id)
  step db (now, redeems token) = after db (redeem_token db now token)
  step db (now, marks_no_show tenant id reason) = after db (mark_no_show db tenant id reason)
  step db (now, marks_attended tenant id) = after db (mark_attended db tenant id)
  step db (now, ticks env) = (tick env db now).0

  unfoldable pub run : Db → List (ℕ × Call) → Db
  run db [] = db
  run db (c ∷ cs) = run (step db c) cs
