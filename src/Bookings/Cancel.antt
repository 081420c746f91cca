-- ===== src/Bookings/Cancel.antt =====
-- bookings.service.ts: `cancel`.
use booking_system.Base.{
  ℕ, not, ◌&&◌, [], ◌∷◌, Text, codes, ◌==◌, Result, ok, err, ◌>>=◌, ◌>>◌, throw_if, or_throw,
  conflict, not_found, forbidden, settled,
}
use booking_system.Common.Roles.{is_admin}
use booking_system.Store.Booking.{Booking, BookingStatus, cancelled, checked_in, no_show, attended}
use booking_system.Store.Outbox.{booking_cancelled}
use booking_system.Store.Db.{Db, Realtime, find_booking, save_booking, send, emit, sync, notify}

-- `reason || 'cancelled'`
abbrev reason_or : Text → Text
reason_or [] = codes "cancelled"
reason_or (c ∷ s) = c ∷ s

abbrev pub cancelled_booking : Booking → Text → Booking
cancelled_booking b reason = record b { status = cancelled; exception_notes = reason_or reason }

-- The write and the messages of a cancellation that goes ahead.
abbrev pub commit_cancel : Db → Booking → Db
commit_cancel db b =
    send (notify booking_cancelled b.id)
      (send (sync booking_cancelled b.id) (send (emit Realtime.cancelled b.id) (save_booking db b)))

abbrev pub cancel_status : BookingStatus → Db → Booking → Text → Result (Booking × Db)
cancel_status cancelled db b reason = ok (b, db)
cancel_status no_show db b reason = err (conflict settled)
cancel_status checked_in db b reason = err (conflict settled)
cancel_status attended db b reason = err (conflict settled)
cancel_status _ db b reason =
    ok (cancelled_booking b reason, commit_cancel db (cancelled_booking b reason))

unfoldable pub cancel : Db → ℕ → ℕ → Text → ℕ → Text → Result (Booking × Db)
cancel db tenant user role id reason = do
  b ← or_throw (find_booking db tenant id) not_found
  throw_if (not (b.user_id == user) && not (is_admin role)) forbidden
  cancel_status b.status db b reason
