-- ===== src/Bookings/NoOverlap/Lifecycle.antt =====
-- Cancelling, checking in, no-show, attendance and auto-release: none of them moves a booking, makes
-- a released one active again, or takes a settled one out of its terminal states.
use booking_system.Base.{
  ℕ, suc, ◌+◌, ◌≡◌, refl, ◌⊎◌, inl, inr, Bool, true, false, ◌&&◌, some, List, [], ◌∷◌, Text,
  if◌then◌else◌, ◌==◌, find, ok, arith, In, find-In, any, Bool-cases, Option-cases,
}
use booking_system.Store.Booking.{
  Booking, BookingStatus, cancelled, checked_in, no_show, attended, is_released, is_attended,
  is_terminal,
}
use booking_system.Store.Db.{Db, find_booking}
use booking_system.Bookings.Cancel.{cancel, cancel_status, cancelled_booking}
use booking_system.Bookings.Checkin.{
  default_token_ttl_ms, issue_token, apply_checkin, checkin_status, checked_in_booking,
  checkin_by_booking, claimable, burnt, burn, redeem_token, mark_no_show, no_show_booking,
  mark_attended, attended_booking,
}
use booking_system.Bookings.AutoRelease.{
  still_held, released_booking, release_notes, release, Env, release_enabled, overdue, candidates,
  visit, sweep, tick,
}
use booking_system.Bookings.NoOverlap.Writes.{
  Narrows, Evolves, Evolves-eq, Evolves-save, Evolves-change, Evolves-trans,
}

found_booking :
    (db : Db) (tenant id : ℕ) {b : Booking} → find_booking db tenant id ≡ some b → In b db.bookings
found_booking db tenant id e =
    (find-In (λ (b : Booking). b.id == id && b.tenant_id == tenant) db.bookings e).0

-- A new status on the same booking, where the old one was active or the new one is not.
status_Narrows :
    (b d : Booking)
    → d.id ≡ b.id
    → d.tenant_id ≡ b.tenant_id
    → d.resource_id ≡ b.resource_id
    → d.start_time ≡ b.start_time
    → d.end_time ≡ b.end_time
    → ((is_released b.status ≡ false) ⊎ (is_released d.status ≡ true))
    → is_terminal d.status ≡ true
    → Narrows b d
status_Narrows b d e1 e2 e3 e4 e5 c q = record {
  id = e1;
  tenant = e2;
  room = e3;
  start = e4;
  end = e5;
  active = λ h. ground arith;
  settled = λ h. q;
}

cancel_status-Evolves :
    (s : BookingStatus) (db : Db) (b : Booking) (reason : Text) (b' : Booking) (db' : Db)
    → In b db.bookings
    → cancel_status s db b reason ≡ ok (b', db')
    → Evolves db.bookings db'.bookings
cancel_status-Evolves cancelled db b reason b' db' i h =
    Evolves-eq db.bookings db'.bookings (ground arith)
cancel_status-Evolves no_show db b reason b' db' i h = cc
cancel_status-Evolves checked_in db b reason b' db' i h = cc
cancel_status-Evolves attended db b reason b' db' i h = cc
cancel_status-Evolves _ db b reason b' db' i h =
    Evolves-save db.bookings db'.bookings b (cancelled_booking b reason) i
      (status_Narrows b (cancelled_booking b reason) refl refl refl refl refl (inr refl) refl)
      (ground arith)

pub cancel-Evolves :
    (db : Db) (tenant user : ℕ) (role : Text) (id : ℕ) (reason : Text) (b' : Booking) {db' : Db}
    → cancel db tenant user role id reason ≡ ok (b', db')
    → Evolves db.bookings db'.bookings
unfolding cancel
cancel-Evolves db tenant user role id reason b' {db'} h =
    elim (Option-cases (find_booking db tenant id)) [
      | inl e ↦ absurd (ground arith)
      | inr (b, e) ↦
          cancel_status-Evolves b.status db b reason b' db' (found_booking db tenant id e)
            (ground arith)
    ]

checkin_status-Evolves :
    (s : BookingStatus) (db : Db) (now : ℕ) (b : Booking) (b' : Booking) (db' : Db)
    → s ≡ b.status
    → In b db.bookings
    → checkin_status s db now b ≡ ok (b', db')
    → Evolves db.bookings db'.bookings
checkin_status-Evolves cancelled db now b b' db' q i h = cc
checkin_status-Evolves no_show db now b b' db' q i h = cc
checkin_status-Evolves checked_in db now b b' db' q i h =
    Evolves-eq db.bookings db'.bookings (ground arith)
checkin_status-Evolves _ db now b b' db' q i h =
    Evolves-save db.bookings db'.bookings b (checked_in_booking now b) i
      (status_Narrows b (checked_in_booking now b) refl refl refl refl refl (inl (ground arith))
        refl)
      (ground arith)

apply_checkin-Evolves :
    (db : Db) (now : ℕ) (b : Booking) (b' : Booking) (db' : Db)
    → In b db.bookings
    → apply_checkin db now b ≡ ok (b', db')
    → Evolves db.bookings db'.bookings
unfolding apply_checkin
apply_checkin-Evolves db now b b' db' i h = checkin_status-Evolves b.status db now b b' db' refl i h

pub checkin_by_booking-Evolves :
    (db : Db) (now tenant user : ℕ) (admin : Bool) (id : ℕ) (b' : Booking) {db' : Db}
    → checkin_by_booking db now tenant user admin id ≡ ok (b', db')
    → Evolves db.bookings db'.bookings
unfolding checkin_by_booking
checkin_by_booking-Evolves db now tenant user admin id b' {db'} h =
    elim (Option-cases (find_booking db tenant id)) [
      | inl e ↦ absurd (ground arith)
      | inr (b, e) ↦
          apply_checkin-Evolves db now b b' db' (found_booking db tenant id e) (ground arith)
    ]

-- Another field of the same booking.
same_Narrows :
    (b d : Booking)
    → d.id ≡ b.id
    → d.tenant_id ≡ b.tenant_id
    → d.resource_id ≡ b.resource_id
    → d.start_time ≡ b.start_time
    → d.end_time ≡ b.end_time
    → d.status ≡ b.status
    → Narrows b d
same_Narrows b d e1 e2 e3 e4 e5 q = record {
  id = e1;
  tenant = e2;
  room = e3;
  start = e4;
  end = e5;
  active = λ h. ground arith;
  settled = λ h. ground arith;
}

burn-Evolves : (db : Db) (token now : ℕ) → Evolves db.bookings (burn db token now).bookings
unfolding burn
burn-Evolves db token now =
    Evolves-change (claimable token now) burnt db.bookings
      (λ c h. same_Narrows c (burnt c) refl refl refl refl refl refl)

pub redeem_token-Evolves :
    (db : Db) (now token : ℕ) (b' : Booking) {db' : Db}
    → redeem_token db now token ≡ ok (b', db')
    → Evolves db.bookings db'.bookings
unfolding redeem_token
redeem_token-Evolves db now token b' {db'} h =
    elim (Option-cases (find (claimable token now) db.bookings)) [
      | inl e ↦ absurd (ground arith)
      | inr (row, e) ↦
          elim (Option-cases
            (find (λ (c : Booking). c.id == row.id) (burn db token now).bookings)) [
              | inl f ↦ absurd (ground arith)
              | inr (b, f) ↦
                  Evolves-trans db.bookings (burn db token now).bookings db'.bookings
                    (burn-Evolves db token now)
                    (apply_checkin-Evolves (burn db token now) now b b' db'
                      (find-In (λ (c : Booking). c.id == row.id) (burn db token now).bookings f).0
                      (ground arith))
            ]
    ]

pub mark_no_show-Evolves :
    (db : Db) (tenant id : ℕ) (reason : Text) (b' : Booking) {db' : Db}
    → mark_no_show db tenant id reason ≡ ok (b', db')
    → Evolves db.bookings db'.bookings
unfolding mark_no_show
mark_no_show-Evolves db tenant id reason b' {db'} h =
    elim (Option-cases (find_booking db tenant id)) [
      | inl e ↦ absurd (ground arith)
      | inr (b, e) ↦
          let d = no_show_booking b reason in
          elim (Bool-cases (is_released b.status)) [
            | inl r ↦ Evolves-eq db.bookings db'.bookings (ground arith)
            | inr r ↦
                Evolves-save db.bookings db'.bookings b d (found_booking db tenant id e)
                  (status_Narrows b d refl refl refl refl refl (inl r) refl) (ground arith)
          ]
    ]

pub mark_attended-Evolves :
    (db : Db) (tenant id : ℕ) (b' : Booking) {db' : Db}
    → mark_attended db tenant id ≡ ok (b', db')
    → Evolves db.bookings db'.bookings
unfolding mark_attended
mark_attended-Evolves db tenant id b' {db'} h = elim (Option-cases (find_booking db tenant id)) [
  | inl e ↦ absurd (ground arith)
  | inr (b, e) ↦
      let d = attended_booking b in
      elim (Bool-cases (is_attended b.status)) [
        | inl r ↦ Evolves-eq db.bookings db'.bookings (ground arith)
        | inr r ↦
            Evolves-save db.bookings db'.bookings b d (found_booking db tenant id e)
              (status_Narrows b d refl refl refl refl refl (inl (ground arith)) refl) (ground arith)
      ]
]

release-Evolves : (db : Db) (b : Booking) → Evolves db.bookings (release db b).0.bookings
unfolding release
release-Evolves db b = elim (Bool-cases (any (still_held b.id) db.bookings)) [
  | inr e ↦ rw e (Evolves-eq db.bookings db.bookings refl)
  | inl e ↦ rw e (
      Evolves-change (still_held b.id) (released_booking (release_notes b.exception_notes))
        db.bookings
        (λ c h.
          status_Narrows c (released_booking (release_notes b.exception_notes) c) refl refl refl
            refl refl (inr refl) refl))
]

visit-Evolves :
    (env : Env) (now : ℕ) (db : Db) (b : Booking)
    → Evolves db.bookings (visit env now db b).0.bookings
unfolding visit
visit-Evolves env now db b = elim (Bool-cases (release_enabled env db b && overdue env db now b)) [
  | inl e ↦ rw e (release-Evolves db b)
  | inr e ↦ rw e (Evolves-eq db.bookings db.bookings refl)
]

sweep-Evolves :
    (env : Env) (now : ℕ) (bs : List Booking) (db : Db) (n : ℕ)
    → Evolves db.bookings (sweep env now bs db n).0.bookings
unfolding sweep
sweep-Evolves env now [] db n = Evolves-eq db.bookings db.bookings refl
sweep-Evolves env now (b ∷ bs) db n =
    Evolves-trans db.bookings (visit env now db b).0.bookings _ (visit-Evolves env now db b) (
      sweep-Evolves env now bs (visit env now db b).0 (if (visit env now db b).1 then suc n else n))

pub tick-Evolves :
    (env : Env) (db : Db) (now : ℕ) → Evolves db.bookings (tick env db now).0.bookings
unfolding tick
tick-Evolves env db now = sweep-Evolves env now (candidates now db.bookings) db 0

pub issue_token-Evolves :
    (db : Db) (now token tenant user : ℕ) (admin : Bool) (id : ℕ) (t e : ℕ) (db' : Db)
    → issue_token db now token tenant user admin id ≡ ok (t, e, db')
    → Evolves db.bookings db'.bookings
unfolding issue_token
issue_token-Evolves db now token tenant user admin id t e db' h =
    elim (Option-cases (find_booking db tenant id)) [
      | inl q ↦ absurd (ground arith)
      | inr (b, q) ↦
          let d = record b {
            checkin_token = some token;
            checkin_token_expires_at = some (now + default_token_ttl_ms);
          } in
          Evolves-save db.bookings db'.bookings b d (found_booking db tenant id q)
            (same_Narrows b d refl refl refl refl refl refl) (ground arith)
    ]
