-- ===== src/Bookings/Recurrence/Accounts.antt =====
-- recurrence.service.ts: what `createSeries` answers, against what it books.
use booking_system.Base.{
  ℕ, suc, ◌+◌, ◌≤◌, ◌≡◌, refl, sym, ap, subst, ◌∙◌, inl, inr, true, Option, none, some, List, [],
  ◌∷◌, ◌++◌, Text, length, length-snoc, All, Result, ok, err, HttpError, arith, Result-cases,
  Bool-cases, is_empty, conflict, none_booked,
}
use booking_system.Common.Tz.{Parts}
use booking_system.Store.Booking.{Booking}
use booking_system.Store.Resource.{Resource}
use booking_system.Store.Db.{Db}
use booking_system.Bookings.NoOverlap.Create.{created_rows}
use booking_system.Bookings.Create.{create}
use booking_system.Bookings.Recurrence.{CreateRecurringDto, Occurrence}
use booking_system.Bookings.Recurrence.Series.{
  SeriesDb, Recurrence, ExpansionResult, Progress, booked, book_all, book_series, settle_series,
  series_plan, create_series, notify_first, occurrence_dto, new_recurrence,
}

-- The ids of new rows, in the order in which they were inserted.
unfoldable pub ids_in_order : List Booking → List ℕ
ids_in_order [] = []
ids_in_order (b ∷ bs) = ids_in_order bs ++ (b.id ∷ [])

-- A booking of the series and its creator.
pub record IsPart (tenant user rec : ℕ) (b : Booking) : Type 0 where
  pub of_tenant : b.tenant_id ≡ tenant
  pub by_user : b.user_id ≡ user
  pub in_series : b.recurrence_id ≡ some rec
  pub recurring : b.is_recurring ≡ true

-- After `n` occurrences the table has new rows for those booked, and the rest was skipped.
pub record Accounts (tenant user rec : ℕ) (old : List Booking) (n : ℕ) (bookings : List Booking)
    (ids skipped : List ℕ) : Type 0 where
  pub new : List Booking
  pub rows : bookings ≡ new ++ old
  pub parts : All (IsPart tenant user rec) new
  pub answer : ids ≡ ids_in_order new
  pub total : length ids + length skipped ≡ n

module _ (tenant user rec : ℕ) (old : List Booking) where
  abbrev Accounted : ℕ → Progress → Type 0
  Accounted n p = Accounts tenant user rec old n p.db.bookings p.booking_ids p.skipped

  module _ (fmt : Text → ℕ → Option Parts) (now : ℕ) (dto : CreateRecurringDto) (room : ℕ) where
    booked-Accounted :
        (n : ℕ) (occ : Occurrence) (p : Progress)
        → Accounted n p
        → Accounted (suc n) (
            booked p occ.start
              (create fmt p.db now tenant user (occurrence_dto dto room rec occ) true))
    unfolding ids_in_order
    booked-Accounted n occ p a =
        elim (Result-cases
          (create fmt p.db now tenant user (occurrence_dto dto room rec occ) true)) [
            | inr (e, q) ↦ rw q (record {
              new = a.new;
              rows = a.rows;
              parts = a.parts;
              answer = a.answer;
              total = (let l = length-snoc p.skipped occ.start in let t = a.total in omega arith);
            })
            | inl ((b, db'), q) ↦
                let (d, e, made, rows) =
                  created_rows fmt p.db now tenant user (occurrence_dto dto room rec occ) true b db'
                    q in
                rw q (record {
                  new = b ∷ a.new;
                  rows = rows ∙ ap (λ (bs : List Booking). b ∷ bs) a.rows;
                  parts = (
                    record {
                      of_tenant = ap (λ (z : Booking). z.tenant_id) made;
                      by_user = ap (λ (z : Booking). z.user_id) made;
                      in_series = ap (λ (z : Booking). z.recurrence_id) made;
                      recurring = ap (λ (z : Booking). z.is_recurring) made;
                    },
                    a.parts,
                  );
                  answer = ap (λ (ids : List ℕ). ids ++ (b.id ∷ [])) a.answer;
                  total =
                      (let l = length-snoc p.booking_ids b.id in let t = a.total in omega arith);
                })
          ]

    book_all-Accounted :
        (date_parse : Text → Option ℕ) (n : ℕ) (occs : List Occurrence) (p : Progress)
        → Accounted n p
        → Accounted (n + length occs) (book_all fmt date_parse now tenant user dto room rec occs p)
    unfolding book_all
    book_all-Accounted date_parse n [] p a =
        let e : n ≡ n + 0 = omega arith in subst (λ k. Accounted k p) e a
    book_all-Accounted date_parse n (occ ∷ occs) p a =
        let next =
          booked p occ.start
            (create fmt p.db now tenant user (occurrence_dto dto room rec occ) true) in
        let r = book_all-Accounted date_parse (suc n) occs next (booked-Accounted n occ p a) in
        let e : suc n + length occs ≡ n + suc (length occs) = omega arith in
        subst (λ k. Accounted k (book_all fmt date_parse now tenant user dto room rec occs next)) e
          r

ids_in_order-nil : (bs : List Booking) → ids_in_order bs ≡ [] → bs ≡ []
unfolding ids_in_order
ids_in_order-nil [] e = refl
ids_in_order-nil (b ∷ bs) e =
    absurd (let l = length-snoc (ids_in_order bs) b.id in let m = ap length e in omega arith)

-- What a finished series promises of the request's `n` occurrences.
pub data Outcome (tenant user : ℕ) (st : SeriesDb) (n : ℕ)
    : Result ExpansionResult × SeriesDb → Type 0 where
  some_booked :
      (res : ExpansionResult) (st' : SeriesDb)
      → res.recurrence_id ≡ st.db.next_id
      → 1 ≤ length res.booking_ids
      → Accounts tenant user st.db.next_id st.db.bookings n st'.db.bookings res.booking_ids
          res.skipped
      → Outcome tenant user st n (ok res, st')
  nothing_booked :
      (e : HttpError) (st' : SeriesDb)
      → st'.db.bookings ≡ st.db.bookings
      → Outcome tenant user st n (err e, st')

notify_first-bookings : (o : Option ℕ) (db : Db) → (notify_first o db).bookings ≡ db.bookings
notify_first-bookings none db = refl
notify_first-bookings (some id) db = refl

settle_series-Outcome :
    (tenant user : ℕ) (st : SeriesDb) (n : ℕ) (recs : List Recurrence) (p : Progress)
    → Accounted tenant user st.db.next_id st.db.bookings n p
    → Outcome tenant user st n (settle_series tenant st.db.next_id recs p)
unfolding settle_series
settle_series-Outcome tenant user st n recs p a = elim (Bool-cases (is_empty p.booking_ids)) [
  | inl e ↦
      let none : p.booking_ids ≡ [] = ground arith in
      let new = ids_in_order-nil a.new (sym a.answer ∙ none) in
      rw e (
        nothing_booked (conflict none_booked) _
          (a.rows ∙ ap (λ (bs : List Booking). bs ++ st.db.bookings) new))
  | inr e ↦
      let same = notify_first-bookings p.first_booking p.db in
      rw e (
        some_booked _ _ refl (ground arith) (record {
          new = a.new;
          rows = same ∙ a.rows;
          parts = a.parts;
          answer = a.answer;
          total = a.total;
        }))
]

-- Of a series whose request passes the checks, either some occurrence is booked, and then the table has new rows exactly
-- for the ids answered, in that order, each a recurring booking of the caller in the new series, and the ids with the
-- skipped dates are as many as the occurrences; or the call throws, and no row was added or changed.
pub create_series-Outcome :
    (fmt : Text → ℕ → Option Parts) (date_parse : Text → Option ℕ) (st : SeriesDb)
    (now tenant user : ℕ) (dto : CreateRecurringDto) (room : Resource) (occs : List Occurrence)
    → series_plan fmt date_parse st.db tenant dto ≡ ok (room, occs)
    → Outcome tenant user st (length occs) (create_series fmt date_parse st now tenant user dto)
unfolding create_series book_series ids_in_order
create_series-Outcome fmt date_parse st now tenant user dto room occs q =
    let rec = st.db.next_id in
    let p : Progress = record {
      db = record (st.db) { next_id = suc rec };
      booking_ids = [];
      skipped = [];
      first_booking = none;
    } in
    let a : Accounted tenant user rec st.db.bookings 0 p = record {
      new = [];
      rows = refl;
      parts = tt;
      answer = refl;
      total = refl;
    } in
    let b =
      book_all-Accounted tenant user rec st.db.bookings fmt now dto room.id date_parse 0 occs p a in
    let e : 0 + length occs ≡ length occs = omega arith in
    let done = book_all fmt date_parse now tenant user dto room.id rec occs p in
    let c = subst (λ k. Accounted tenant user rec st.db.bookings k done) e b in
    rw q (
      settle_series-Outcome tenant user st (length occs)
        (new_recurrence rec tenant user dto room ∷ st.recurrences) done c)
