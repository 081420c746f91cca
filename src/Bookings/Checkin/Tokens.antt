-- ===== src/Bookings/Checkin/Tokens.antt =====
-- The single use of a check-in token: checkin.service.ts `redeemToken`.
use booking_system.Base.{
  ℕ, ◌≤◌, ◌≡◌, refl, subst, inl, inr, false, none, List, [], ◌∷◌, ◌==◌, find, change, ok, err,
  bad_request, token_invalid, arith, Bool-cases, Option-cases, In, find-In,
}
use booking_system.Store.Booking.{
  Booking, BookingStatus, cancelled, no_show, checked_in, is_released,
}
use booking_system.Store.Db.{Db, save_booking, send, emit, Realtime}
use booking_system.Bookings.Checkin.{
  claimable, burnt, burn, redeem_token, apply_checkin, checkin_status, checked_in_booking,
}

-- No row can be claimed with the token.
abbrev NoClaim : ℕ → ℕ → List Booking → Type 0
NoClaim token now bs = find (claimable token now) bs ≡ none

later-claimable :
    (token now now' : ℕ) (b : Booking)
    → now ≤ now'
    → claimable token now b ≡ false
    → claimable token now' b ≡ false
unfolding claimable
later-claimable token now now' b l h = ground arith

burnt-claimable : (token now : ℕ) (b : Booking) → claimable token now (burnt b) ≡ false
unfolding claimable
burnt-claimable token now b = refl

burn-NoClaim :
    (token now now' : ℕ) (bs : List Booking)
    → now ≤ now'
    → NoClaim token now' (change (claimable token now) burnt bs)
burn-NoClaim token now now' [] l = refl
burn-NoClaim token now now' (b ∷ bs) l = elim (Bool-cases (claimable token now b)) [
  | inl e ↦ let r = burnt-claimable token now' b in rw (e, r) (burn-NoClaim token now now' bs l)
  | inr e ↦
      let r = later-claimable token now now' b l e in rw (e, r) (burn-NoClaim token now now' bs l)
]

-- Saving a claimed row, burnt and perhaps checked in, makes no row claimable.
saved-NoClaim :
    (token now : ℕ) (b : Booking) (bs : List Booking)
    → claimable token now b ≡ false
    → NoClaim token now bs
    → NoClaim token now (change (λ (c : Booking). c.id == b.id) (λ _. b) bs)
saved-NoClaim token now b [] h n = refl
saved-NoClaim token now b (c ∷ bs) h n =
    let r = saved-NoClaim token now b bs h (ground arith) in ground arith

NoClaim-In :
    (token now : ℕ) (b : Booking) (bs : List Booking)
    → NoClaim token now bs
    → In b bs
    → claimable token now b ≡ false
NoClaim-In token now b [] n i = elim i [ ]
NoClaim-In token now b (c ∷ bs) n (inl e) = elim (Bool-cases (claimable token now c)) [
  | inl t ↦ ground arith
  | inr f ↦ rw e f
]
NoClaim-In token now b (c ∷ bs) n (inr i) = NoClaim-In token now b bs (ground arith) i

checked_in-claimable :
    (now token now' : ℕ) (b : Booking)
    → is_released b.status ≡ false
    → claimable token now' b ≡ false
    → claimable token now' (checked_in_booking now b) ≡ false
unfolding claimable
checked_in-claimable now token now' b r h = ground arith

-- A check-in that goes through leaves no row claimable.
checkin_status-NoClaim :
    (s : BookingStatus) (db : Db) (now now' token : ℕ) (b c : Booking) (db' : Db)
    → s ≡ b.status
    → NoClaim token now' db.bookings
    → claimable token now' b ≡ false
    → checkin_status s db now b ≡ ok (c, db')
    → NoClaim token now' db'.bookings
checkin_status-NoClaim cancelled db now now' token b c db' q n f h = cc
checkin_status-NoClaim no_show db now now' token b c db' q n f h = cc
checkin_status-NoClaim checked_in db now now' token b c db' q n f h =
    let e : db ≡ db' = ground arith in subst (λ (d : Db). NoClaim token now' d.bookings) e n
checkin_status-NoClaim _ db now now' token b c db' q n f h =
    let r = checked_in-claimable now token now' b (ground arith) f in
    let s = saved-NoClaim token now' (checked_in_booking now b) db.bookings r n in
    let e : send (emit Realtime.checked_in b.id) (save_booking db (checked_in_booking now b))
        ≡ db' =
      ground arith in
    subst (λ (d : Db). NoClaim token now' d.bookings) e s

-- Once a token has been redeemed, redeeming it again at that time or later is refused.
pub redeem_token-once :
    (db : Db) (token now now' : ℕ) (b : Booking) (db' : Db)
    → redeem_token db now token ≡ ok (b, db')
    → now ≤ now'
    → redeem_token db' now' token ≡ err (bad_request token_invalid)
unfolding redeem_token burn apply_checkin
redeem_token-once db token now now' b db' h l =
    elim (Option-cases (find (claimable token now) db.bookings)) [
      | inl e ↦ absurd (ground arith)
      | inr (row, e) ↦
          elim (Option-cases
            (find (λ (c : Booking). c.id == row.id) (burn db token now).bookings)) [
              | inl f ↦ absurd (ground arith)
              | inr (c, f) ↦
                  let n = burn-NoClaim token now now' db.bookings l in
                  let g =
                    NoClaim-In token now' c (burn db token now).bookings n
                      (find-In (λ (c : Booking). c.id == row.id) (burn db token now).bookings
                        f).0 in
                  let r =
                    checkin_status-NoClaim c.status (burn db token now) now now' token c b db' refl
                      n g (ground arith) in
                  ground arith
            ]
    ]
