-- ===== src/Bookings/History/Rooms.antt =====
-- The booking calls leave the rooms as they are and hand out ids in order.
use booking_system.Base.{
  ℕ, suc, ◌≤◌, ◌≡◌, refl, subst, ◌∙◌, inl, inr, Bool, Option, List, [], ◌∷◌, Text, ok, arith,
  Option-cases, Result-cases, if◌then◌else◌, find, ◌==◌,
}
use booking_system.Common.Tz.{Parts}
use booking_system.Store.Booking.{Booking}
use booking_system.Store.Db.{Db, find_booking}
use booking_system.Approvals.Chain.{materialize-resources, materialize-next_id}
use booking_system.Bookings.Create.{
  CreateBookingDto, draft, start_chain, insert_booking, new_booking, create,
}
use booking_system.Bookings.Update.{UpdateBookingDto, apply_update, update}
use booking_system.Bookings.Cancel.{cancel}
use booking_system.Bookings.Checkin.{
  issue_token, apply_checkin, checkin_by_booking, claimable, burn, redeem_token, mark_no_show,
  mark_attended,
}
use booking_system.Bookings.AutoRelease.{Env, release, visit, sweep, candidates, tick}

abbrev pub Keeps : Db → Db → Type 0
Keeps db db' = (db'.resources ≡ db.resources) × (db.next_id ≤ db'.next_id)

pub Keeps-trans : (a b c : Db) → Keeps a b → Keeps b c → Keeps a c
Keeps-trans a b c k l = (l.0 ∙ k.0, omega arith)

start_chain-Keeps : (db : Db) (now : ℕ) (b : Booking) → Keeps db (start_chain db now b)
unfolding start_chain
start_chain-Keeps db now b =
    (ground (arith, materialize-resources db now b), ground (arith, materialize-next_id db now b))

insert_booking-Keeps : (db : Db) (b : Booking) (s : Bool) → Keeps db (insert_booking db b s)
unfolding insert_booking
insert_booking-Keeps db b s = (ground arith, ground arith)

pub cancel-Keeps :
    (db : Db) (tenant user : ℕ) (role : Text) (id : ℕ) (reason : Text) (b : Booking) (db' : Db)
    → cancel db tenant user role id reason ≡ ok (b, db')
    → Keeps db db'
unfolding cancel
cancel-Keeps db tenant user role id reason b db' h = (ground arith, ground arith)

pub apply_checkin-Keeps :
    (db : Db) (now : ℕ) (b b' : Booking) (db' : Db)
    → apply_checkin db now b ≡ ok (b', db')
    → Keeps db db'
unfolding apply_checkin
apply_checkin-Keeps db now b b' db' h = (ground arith, ground arith)

pub mark_no_show-Keeps :
    (db : Db) (tenant id : ℕ) (reason : Text) (b : Booking) (db' : Db)
    → mark_no_show db tenant id reason ≡ ok (b, db')
    → Keeps db db'
unfolding mark_no_show
mark_no_show-Keeps db tenant id reason b db' h = (ground arith, ground arith)

pub mark_attended-Keeps :
    (db : Db) (tenant id : ℕ) (b : Booking) (db' : Db)
    → mark_attended db tenant id ≡ ok (b, db')
    → Keeps db db'
unfolding mark_attended
mark_attended-Keeps db tenant id b db' h = (ground arith, ground arith)

pub checkin_by_booking-Keeps :
    (db : Db) (now tenant user : ℕ) (admin : Bool) (id : ℕ) (b' : Booking) (db' : Db)
    → checkin_by_booking db now tenant user admin id ≡ ok (b', db')
    → Keeps db db'
unfolding checkin_by_booking
checkin_by_booking-Keeps db now tenant user admin id b' db' h =
    elim (Option-cases (find_booking db tenant id)) [
      | inl e ↦ absurd (ground arith)
      | inr (b, e) ↦ apply_checkin-Keeps db now b b' db' (ground arith)
    ]

pub redeem_token-Keeps :
    (db : Db) (now token : ℕ) (b' : Booking) (db' : Db)
    → redeem_token db now token ≡ ok (b', db')
    → Keeps db db'
unfolding redeem_token burn
redeem_token-Keeps db now token b' db' h =
    elim (Option-cases (find (claimable token now) db.bookings)) [
      | inl e ↦ absurd (ground arith)
      | inr (row, e) ↦
          elim (Option-cases
            (find (λ (c : Booking). c.id == row.id) (burn db token now).bookings)) [
              | inl f ↦ absurd (ground arith)
              | inr (b, f) ↦ apply_checkin-Keeps (burn db token now) now b b' db' (ground arith)
            ]
    ]

visit-Keeps : (env : Env) (now : ℕ) (db : Db) (b : Booking) → Keeps db (visit env now db b).0
unfolding visit release
visit-Keeps env now db b = (ground arith, ground arith)

sweep-Keeps :
    (env : Env) (now : ℕ) (bs : List Booking) (db : Db) (n : ℕ) → Keeps db (sweep env now bs db n).0
unfolding sweep
sweep-Keeps env now [] db n = (refl, omega arith)
sweep-Keeps env now (b ∷ bs) db n =
    Keeps-trans db (visit env now db b).0 (sweep env now (b ∷ bs) db n).0 (visit-Keeps env now db b)
      (sweep-Keeps env now bs (visit env now db b).0 (if (visit env now db b).1 then suc n else n))

pub tick-Keeps : (env : Env) (db : Db) (now : ℕ) → Keeps db (tick env db now).0
unfolding tick
tick-Keeps env db now = sweep-Keeps env now (candidates now db.bookings) db 0

module _ (fmt : Text → ℕ → Option Parts) (db : Db) (now tenant user : ℕ) where
  pub create-Keeps :
      (dto : CreateBookingDto) (s : Bool) (b : Booking) (db' : Db)
      → create fmt db now tenant user dto s ≡ ok (b, db')
      → Keeps db db'
  unfolding create
  create-Keeps dto s b db' h = elim (Result-cases (draft fmt db now tenant user dto)) [
    | inr (x, e) ↦ absurd (ground arith)
    | inl (d, e) ↦
        let n = new_booking db.next_id tenant user dto d in
        let e : start_chain (insert_booking db n s) now n ≡ db' = ground arith in
        subst (Keeps db) e (
          Keeps-trans db (insert_booking db n s) (start_chain (insert_booking db n s) now n)
            (insert_booking-Keeps db n s) (start_chain-Keeps (insert_booking db n s) now n))
  ]

  -- The write and the messages of an update.
  pub update_ok :
      (role : Text) (id : ℕ) (dto : UpdateBookingDto) (b : Booking) (db' : Db)
      → update fmt db now tenant user role id dto ≡ ok (b, db')
      → (db'' : Db) × (apply_update fmt db now tenant user role id dto ≡ ok (b, db''))
        × (db'.bookings ≡ db''.bookings)
        × Keeps db'' db'
  unfolding update
  update_ok role id dto b db' h =
      elim (Result-cases (apply_update fmt db now tenant user role id dto)) [
        | inr (x, e) ↦ absurd (ground arith)
        | inl (r, e) ↦ (r.1, ground arith, ground arith, (ground arith, ground arith))
      ]

  pub apply_update-Keeps :
      (role : Text) (id : ℕ) (dto : UpdateBookingDto) (b : Booking) (db' : Db)
      → apply_update fmt db now tenant user role id dto ≡ ok (b, db')
      → Keeps db db'
  unfolding apply_update
  apply_update-Keeps role id dto b db' h = (ground arith, ground arith)

pub issue_token-Keeps :
    (db : Db) (now token tenant user : ℕ) (admin : Bool) (id : ℕ) (t e : ℕ) (db' : Db)
    → issue_token db now token tenant user admin id ≡ ok (t, e, db')
    → Keeps db db'
unfolding issue_token
issue_token-Keeps db now token tenant user admin id t e db' h = (ground arith, ground arith)
