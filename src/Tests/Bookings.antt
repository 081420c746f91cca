-- ===== src/Tests/Bookings.antt =====
-- Bookings at concrete inputs.
use booking_system.Base.{
  some, ok, ℕ, ◌+◌, ◌≡◌, refl, sym, ap, ◌∙◌, inl, inr, true, false, List, [], ◌∷◌, ok, err, arith,
  bad_request, token_invalid, length, keep, change, ◌≤◌, ◌&&◌,
}
use booking_system.Store.Booking.{Booking, cancelled}
use booking_system.Store.Db.{Db}
use booking_system.Bookings.Conflict.Composite.{IsComposite}
use booking_system.Bookings.NoOverlap.Writes.{NoDoubleBooking}
use booking_system.Bookings.History.{Call, creates, redeems, marks_no_show, run}
use booking_system.Bookings.History.Safety.{IsSettled, run-NoDoubleBooking, run-IsSettled}
use booking_system.Bookings.Checkin.{redeem_token, claimable, burn, apply_checkin}
use booking_system.Bookings.Checkin.Tokens.{redeem_token-once}
use booking_system.Bookings.AutoRelease.{Env, tick, is_candidate}
use booking_system.Bookings.AutoRelease.Sweep.{guard, freed}
use booking_system.Bookings.AutoRelease.Tick.{Unique, tick-rows}
use booking_system.Bookings.Validator.{validate, local_dates_spanned, num}
use booking_system.Common.Tz.{utc_to_zoned_wall_clock}
use booking_system.Bookings.Validator.Policy.{IsAllowed, validate-IsAllowed}
use booking_system.Tests.Data.{no_overrides, hong_kong, meeting, office, request, ten}

pub office-IsComposite : IsComposite office.resources
office-IsComposite = record {
  unique = λ r s i j e. ground arith;
  child_mode = λ r p i e. ground arith;
  parent_mode = λ r s i j t e. ground arith;
}

pub office-NoDoubleBooking : NoDoubleBooking office.resources office.bookings
office-NoDoubleBooking a b t (inl e) (inl f) ne =
    absurd (ne (ap (λ (z : Booking). z.id) (e ∙ sym f)))
office-NoDoubleBooking a b t (inr i) j ne = elim i [ ]
office-NoDoubleBooking a b t (inl e) (inr j) ne = elim j [ ]

run-NoDoubleBooking_example :
    NoDoubleBooking office.resources
      (run hong_kong office ((ten, creates 9 7 request false) ∷ (ten, redeems 55) ∷ [])).bookings
run-NoDoubleBooking_example =
    run-NoDoubleBooking hong_kong office ((ten, creates 9 7 request false) ∷ (ten, redeems 55) ∷ [])
      office-IsComposite office-NoDoubleBooking

-- The meeting was cancelled.
abbrev dropped : Booking
dropped = record meeting { status = cancelled }

abbrev calls : List (ℕ × Call)
calls = (ten, creates 9 7 request false) ∷ (ten, marks_no_show 9 100 []) ∷ []

dropped-IsSettled : IsSettled dropped (dropped ∷ [])
dropped-IsSettled x (inl e) q = rw e (refl, refl, refl, refl, refl)
dropped-IsSettled x (inr i) q = elim i [ ]

run-IsSettled_example :
    IsSettled dropped (run hong_kong (record office { bookings = dropped ∷ [] }) calls).bookings
run-IsSettled_example =
    run-IsSettled hong_kong dropped (record office { bookings = dropped ∷ [] }) calls (omega arith)
      dropped-IsSettled

redeemed : (b : Booking) × (db' : Db) × (redeem_token office ten 55 ≡ ok (b, db'))
unfolding redeem_token claimable burn apply_checkin
redeemed = (_, _, refl)

redeem_token-once_example :
    redeem_token redeemed.1 (ten + 60000) 55 ≡ err (bad_request token_invalid)
redeem_token-once_example =
    redeem_token-once office 55 ten (ten + 60000) redeemed.0 redeemed.1 redeemed.2 (omega arith)

abbrev grace : Env
grace = record { enabled = true; grace_minutes = 15 }

office-Unique : Unique office.bookings
office-Unique a b (inl e) (inl f) q = e ∙ sym f
office-Unique a b (inl e) (inr j) q = elim j [ ]
office-Unique a b (inr i) j q = elim i [ ]

few : length (keep (is_candidate (ten + 1800000)) office.bookings) ≤ 1000
unfolding is_candidate
few = omega arith

tick-rows_example :
    (tick grace office (ten + 1800000)).0.bookings
    ≡ change
        (λ (c : Booking). is_candidate (ten + 1800000) c && guard grace office (ten + 1800000) c)
        freed
        office.bookings
tick-rows_example = tick-rows grace office (ten + 1800000) office-Unique few

allowed :
    (w : ℕ × ℕ) × (validate hong_kong office ten 9
        (some (ten + 10800000))
        (some (ten + 14400000))
        no_overrides
        []
        false
      ≡ ok w)
unfolding validate num local_dates_spanned utc_to_zoned_wall_clock
allowed = (_, refl)

validate-IsAllowed_example :
    IsAllowed hong_kong office ten 9 no_overrides [] false (ten + 10800000) (ten + 14400000)
validate-IsAllowed_example =
    validate-IsAllowed hong_kong office ten 9 no_overrides [] false (ten + 10800000)
      (ten + 14400000) allowed.1
