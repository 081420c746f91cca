-- ===== src/Bookings/Recurrence/Safety.antt =====
-- recurrence.service.ts: a series keeps the rooms free of double bookings, and accounts for its dates.
use booking_system.Base.{
  ℕ, suc, ◌≡◌, sym, subst, inl, inr, true, Option, none, some, List, [], ◌∷◌, keep, Text, ok, arith,
  Result-cases, Bool-cases, is_empty,
}
use booking_system.Common.Tz.{Parts}
use booking_system.Store.Booking.{Booking, is_terminal}
use booking_system.Store.Db.{Db}
use booking_system.Bookings.Conflict.Composite.{IsComposite}
use booking_system.Bookings.NoOverlap.Writes.{NoDoubleBooking, Evolves-NoDoubleBooking}
use booking_system.Bookings.NoOverlap.Create.{create-NoDoubleBooking}
use booking_system.Bookings.NoOverlap.Lifecycle.{cancel-Evolves}
use booking_system.Bookings.History.Rooms.{Keeps, create-Keeps, cancel-Keeps}
use booking_system.Bookings.Create.{CreateBookingDto, create}
use booking_system.Bookings.Cancel.{cancel}
use booking_system.Bookings.Recurrence.{CreateRecurringDto, Occurrence}
use booking_system.Bookings.Recurrence.Series.{
  SeriesDb, Recurrence, Progress, booked, book_all, book_series, settle_series, series_plan,
  create_series, notify_first, cancel_all, cancel_series, after_cancel, occurrence_dto, reason_or,
  new_recurrence, of_series,
}

-- The rooms are well formed and free of double bookings.
pub record IsClear (db : Db) : Type 0 where
  pub composite : IsComposite db.resources
  pub free : NoDoubleBooking db.resources db.bookings

-- The same rooms.
pub Keeps-IsClear :
    (db db' : Db)
    → Keeps db db'
    → IsComposite db.resources
    → NoDoubleBooking db.resources db'.bookings
    → IsClear db'
Keeps-IsClear db db' k wf inv = record {
  composite = subst IsComposite (sym k.0) wf;
  free = subst (λ rs. NoDoubleBooking rs db'.bookings) (sym k.0) inv;
}

cancelled-IsClear :
    (db : Db) (tenant user : ℕ) (role : Text) (id : ℕ) (reason : Text)
    → IsClear db
    → IsClear (after_cancel db (cancel db tenant user role id reason))
cancelled-IsClear db tenant user role id reason c =
    elim (Result-cases (cancel db tenant user role id reason)) [
      | inr (e, q) ↦ rw q c
      | inl ((b, db'), q) ↦ rw q (
          Keeps-IsClear db db' (cancel-Keeps db tenant user role id reason b db' q) c.composite (
            Evolves-NoDoubleBooking db.resources db.bookings db'.bookings
              (cancel-Evolves db tenant user role id reason b q) c.free))
    ]

cancel_all-IsClear :
    (tenant user : ℕ) (role reason : Text) (bs : List Booking) (db : Db)
    → IsClear db
    → IsClear (cancel_all tenant user role reason bs db)
unfolding cancel_all
cancel_all-IsClear tenant user role reason [] db c = c
cancel_all-IsClear tenant user role reason (b ∷ bs) db c =
    elim (Bool-cases (is_terminal b.status)) [
      | inl e ↦ rw e (cancel_all-IsClear tenant user role reason bs db c)
      | inr e ↦ rw e (
          cancel_all-IsClear tenant user role reason bs
            (after_cancel db (cancel db tenant user role b.id (reason_or reason)))
            (cancelled-IsClear db tenant user role b.id (reason_or reason) c))
    ]

module _ (fmt : Text → ℕ → Option Parts) (now tenant user : ℕ) where
  booked-IsClear :
      (dto : CreateBookingDto) (start : ℕ) (p : Progress)
      → IsClear p.db
      → IsClear (booked p start (create fmt p.db now tenant user dto true)).db
  booked-IsClear dto start p c = elim (Result-cases (create fmt p.db now tenant user dto true)) [
    | inr (e, q) ↦ rw q c
    | inl ((b, db'), q) ↦ rw q (
        Keeps-IsClear p.db db' (create-Keeps fmt p.db now tenant user dto true b db' q) c.composite
          (create-NoDoubleBooking fmt p.db now tenant user dto true b db' c.composite c.free q))
  ]

  module _ (date_parse : Text → Option ℕ) (dto : CreateRecurringDto) (room rec : ℕ) where
    book_all-IsClear :
        (occs : List Occurrence) (p : Progress)
        → IsClear p.db
        → IsClear (book_all fmt date_parse now tenant user dto room rec occs p).db
    unfolding book_all
    book_all-IsClear [] p c = c
    book_all-IsClear (occ ∷ occs) p c =
        let next =
          booked p occ.start
            (create fmt p.db now tenant user (occurrence_dto dto room rec occ) true) in
        book_all-IsClear occs next (booked-IsClear (occurrence_dto dto room rec occ) occ.start p c)

notify_first-IsClear : (o : Option ℕ) (db : Db) → IsClear db → IsClear (notify_first o db)
notify_first-IsClear none db c = record { composite = c.composite; free = c.free }
notify_first-IsClear (some id) db c = record { composite = c.composite; free = c.free }

settle_series-IsClear :
    (tenant rec : ℕ) (recs : List Recurrence) (p : Progress)
    → IsClear p.db
    → IsClear (settle_series tenant rec recs p).1.db
unfolding settle_series
settle_series-IsClear tenant rec recs p c = elim (Bool-cases (is_empty p.booking_ids)) [
  | inl e ↦ rw e c
  | inr e ↦ rw e (notify_first-IsClear p.first_booking p.db c)
]

-- Creating a series, whatever becomes of each occurrence and also where it throws, leaves no two
-- bookings in the same space at one instant, where the rooms were well formed and free of double bookings.
pub create_series-IsClear :
    (fmt : Text → ℕ → Option Parts) (date_parse : Text → Option ℕ) (st : SeriesDb)
    (now tenant user : ℕ) (dto : CreateRecurringDto)
    → IsClear st.db
    → IsClear (create_series fmt date_parse st now tenant user dto).1.db
unfolding create_series book_series
create_series-IsClear fmt date_parse st now tenant user dto c =
    elim (Result-cases (series_plan fmt date_parse st.db tenant dto)) [
      | inr (e, q) ↦ rw q c
      | inl (v, q) ↦
          let p : Progress = record {
            db = record (st.db) { next_id = suc st.db.next_id };
            booking_ids = [];
            skipped = [];
            first_booking = none;
          } in
          rw q (
            settle_series-IsClear tenant st.db.next_id
              (new_recurrence st.db.next_id tenant user dto v.0 ∷ st.recurrences)
              (book_all fmt date_parse now tenant user dto v.0.id st.db.next_id v.1 p)
              (book_all-IsClear fmt now tenant user date_parse dto v.0.id st.db.next_id v.1 p
                (record { composite = c.composite; free = c.free })))
    ]

-- Cancelling a series keeps the rooms free of double bookings.
pub cancel_series-IsClear :
    (st : SeriesDb) (tenant user : ℕ) (role : Text) (id : ℕ) (reason : Text) (rec : Recurrence)
    (st' : SeriesDb)
    → IsClear st.db
    → cancel_series st tenant user role id reason ≡ ok (rec, st')
    → IsClear st'.db
unfolding cancel_series
cancel_series-IsClear st tenant user role id reason rec st' c h =
    let bs = keep (of_series tenant id) st.db.bookings in
    let q : cancel_all tenant user role reason bs st.db ≡ st'.db = ground arith in
    subst IsClear q (cancel_all-IsClear tenant user role reason bs st.db c)
