-- ===== src/Bookings/Checkin.antt =====
-- checkin.service.ts: check-in tokens and the outcomes after a booking's start.
-- A token is a number; 0 is the empty string. `randomBytes` is the argument `token`.
pub mod Tokens
use booking_system.Base.{
  ℕ, ◌+◌, ◌*◌, Bool, true, false, not, ◌&&◌, ◌||◌, Option, none, some, List, [], ◌∷◌, Text, codes,
  trim, if◌then◌else◌, ◌==◌, ltb, same_opt, find, keep, change, Result, ok, err, ◌>>=◌, ◌>>◌,
  throw_if, or_throw, bad_request, not_found, forbidden, missing_token, token_invalid,
  not_checkinable, not_attendable,
}
use booking_system.Store.Booking.{
  Booking, BookingStatus, confirmed, pending_approval, cancelled, checked_in, no_show, attended,
  exception, is_released, is_checked_in, is_attended,
}
use booking_system.Store.Db.{Db, Realtime, find_booking, save_booking, send, emit}

abbrev pub default_token_ttl_ms : ℕ
default_token_ttl_ms = 24 * 60 * 60 * 1000

unfoldable pub issue_token : Db → ℕ → ℕ → ℕ → ℕ → Bool → ℕ → Result (ℕ × ℕ × Db)
issue_token db now token tenant user admin id = do
  b ← or_throw (find_booking db tenant id) not_found
  throw_if (not (b.user_id == user) && not admin) forbidden
  let expires = now + default_token_ttl_ms
  let saved = record b { checkin_token = some token; checkin_token_expires_at = some expires }
  ok (token, expires, save_booking db saved)

abbrev pub checked_in_booking : ℕ → Booking → Booking
checked_in_booking now b = record b { status = checked_in; checked_in_at = some now }

abbrev pub checkin_status : BookingStatus → Db → ℕ → Booking → Result (Booking × Db)
checkin_status cancelled db now b = err (bad_request not_checkinable)
checkin_status no_show db now b = err (bad_request not_checkinable)
checkin_status checked_in db now b = ok (b, db)
checkin_status _ db now b = ok (
  checked_in_booking now b,
  send (emit Realtime.checked_in b.id) (save_booking db (checked_in_booking now b)),
)

unfoldable pub apply_checkin : Db → ℕ → Booking → Result (Booking × Db)
apply_checkin db now b = checkin_status b.status db now b

unfoldable pub checkin_by_booking : Db → ℕ → ℕ → ℕ → Bool → ℕ → Result (Booking × Db)
checkin_by_booking db now tenant user admin id = do
  b ← or_throw (find_booking db tenant id) not_found
  throw_if (not (b.user_id == user) && not admin) forbidden
  apply_checkin db now b

abbrev unexpired : Option ℕ → ℕ → Bool
unexpired none now = true
unexpired (some e) now = ltb now e

-- The `WHERE` of the claim.
unfoldable pub claimable : ℕ → ℕ → Booking → Bool
claimable token now b =
    same_opt b.checkin_token token
    && unexpired b.checkin_token_expires_at now
    && not (is_released b.status)

abbrev pub burnt : Booking → Booking
burnt b = record b { checkin_token = none; checkin_token_expires_at = none }

-- `UPDATE … SET token = NULL WHERE …`
unfoldable pub burn : Db → ℕ → ℕ → Db
burn db token now = record db { bookings = change (claimable token now) burnt db.bookings }

-- The claim and the check-in in one transaction; the first claimed row is the one returned.
unfoldable pub redeem_token : Db → ℕ → ℕ → Result (Booking × Db)
redeem_token db now token = do
  throw_if (token == 0) (bad_request missing_token)
  row ← or_throw (find (claimable token now) db.bookings) (bad_request token_invalid)
  b ← or_throw (find (λ (c : Booking). c.id == row.id) (burn db token now).bookings) not_found
  apply_checkin (burn db token now) now b

-- `reason?.trim() || b.exceptionNotes || 'admin marked no-show'`
abbrev no_show_notes : Text → Text → Text
no_show_notes [] [] = codes "admin marked no-show"
no_show_notes [] (c ∷ s) = c ∷ s
no_show_notes (c ∷ s) _ = c ∷ s

abbrev pub no_show_booking : Booking → Text → Booking
no_show_booking b reason = record b {
  status = no_show;
  exception_notes = no_show_notes (trim reason) b.exception_notes;
}

unfoldable pub mark_no_show : Db → ℕ → ℕ → Text → Result (Booking × Db)
mark_no_show db tenant id reason = do
  b ← or_throw (find_booking db tenant id) not_found
  let flipped = no_show_booking b reason
  ok (
      if is_released b.status
      then (b, db)
      else (flipped, send (emit Realtime.no_show b.id) (save_booking db flipped)))

abbrev pub attended_booking : Booking → Booking
attended_booking b = record b { status = attended }

unfoldable pub mark_attended : Db → ℕ → ℕ → Result (Booking × Db)
mark_attended db tenant id = do
  b ← or_throw (find_booking db tenant id) not_found
  throw_if (is_released b.status) (bad_request not_attendable)
  ok (
      if is_attended b.status then (b, db) else (
        attended_booking b,
        send (emit Realtime.attended b.id) (save_booking db (attended_booking b)),
      ))
