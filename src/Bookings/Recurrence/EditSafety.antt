-- ===== src/Bookings/Recurrence/EditSafety.antt =====
-- `updateSeries` keeps the rooms free of double bookings.
use booking_system.Base.{
  ℕ, ◌≡◌, subst, sym, inl, inr, Option, none, some, List, [], ◌∷◌, Text, ok, arith, Result-cases,
  Option-cases, Bool-cases, keep,
}
use booking_system.Common.Tz.{Parts}
use booking_system.Store.Booking.{Booking}
use booking_system.Store.Db.{Db, find_booking}
use booking_system.Bookings.AutoRelease.{by_start}
use booking_system.Bookings.Update.{UpdateBookingDto, apply_update, update}
use booking_system.Bookings.NoOverlap.Writes.{NoDoubleBooking}
use booking_system.Bookings.NoOverlap.Update.{apply_update-NoDoubleBooking}
use booking_system.Bookings.History.Rooms.{apply_update-Keeps, update_ok, Keeps-trans}
use booking_system.Bookings.Recurrence.Series.{of_series}
use booking_system.Bookings.Recurrence.Safety.{IsClear, Keeps-IsClear}
use booking_system.Bookings.Recurrence.Edit.{
  Edits, SeriesUpdate, edited, editable, announce, series_patch, edit_all, update_siblings,
  update_anchor, update_series,
}

announce-IsClear : (bs : List Booking) (db : Db) → IsClear db → IsClear (announce bs db)
unfolding announce
announce-IsClear [] db c = c
announce-IsClear (b ∷ bs) db c =
    announce-IsClear bs _ (record { composite = c.composite; free = c.free })

module _ (fmt : Text → ℕ → Option Parts) (now tenant user : ℕ) (role : Text)
    (dto : UpdateBookingDto) where
  edited-IsClear :
      (w : Edits) (s : Booking) (patch : UpdateBookingDto)
      → IsClear w.db
      → IsClear (edited w s (apply_update fmt w.db now tenant user role s.id patch)).db
  edited-IsClear w s patch c =
      elim (Result-cases (apply_update fmt w.db now tenant user role s.id patch)) [
        | inr (e, q) ↦ rw q c
        | inl ((b, db'), q) ↦ rw q (
            Keeps-IsClear w.db db'
              (apply_update-Keeps fmt w.db now tenant user role s.id patch b db' q) c.composite
              (apply_update-NoDoubleBooking fmt w.db now tenant user role s.id patch b db'
                c.composite c.free q))
      ]

  edit_all-IsClear :
      (anchor : Booking) (tz : Option Text) (ss : List Booking) (w w' : Edits)
      → IsClear w.db
      → edit_all fmt now tenant user role dto anchor tz ss w ≡ ok w'
      → IsClear w'.db
  unfolding edit_all
  edit_all-IsClear anchor tz [] w w' c h =
      let q : w ≡ w' = ground arith in subst (λ (x : Edits). IsClear x.db) q c
  edit_all-IsClear anchor tz (s ∷ ss) w w' c h = elim (Bool-cases (editable now s)) [
    | inr e ↦ edit_all-IsClear anchor tz ss w w' c (ground arith)
    | inl e ↦ elim (Result-cases (series_patch fmt dto anchor s tz)) [
      | inr (x, q) ↦ absurd (ground arith)
      | inl (patch, q) ↦
          let next = edited w s (apply_update fmt w.db now tenant user role s.id patch) in
          edit_all-IsClear anchor tz ss next w' (edited-IsClear w s patch c) (ground arith)
    ]
  ]

  update_siblings-IsClear :
      (db : Db) (anchor : Booking) (rec : ℕ) (u : SeriesUpdate) (db' : Db)
      → IsClear db
      → update_siblings fmt db now tenant user role anchor rec dto ≡ ok (u, db')
      → IsClear db'
  unfolding update_siblings
  update_siblings-IsClear db anchor rec u db' c h =
      let tz : Option Text = (db.customization tenant).timezone in
      let ss = by_start (keep (of_series tenant rec) db.bookings) in
      let w0 : Edits = record { db = db; saved = []; skipped = [] } in
      elim (Result-cases (edit_all fmt now tenant user role dto anchor tz ss w0)) [
        | inr (x, q) ↦ absurd (ground arith)
        | inl (w, q) ↦
            let e : announce w.saved w.db ≡ db' = ground arith in
            subst IsClear e (announce-IsClear w.saved w.db (edit_all-IsClear anchor tz ss w0 w c q))
      ]

  update_anchor-IsClear :
      (db : Db) (anchor : Booking) (rec : Option ℕ) (u : SeriesUpdate) (db' : Db)
      → IsClear db
      → update_anchor fmt db now tenant user role anchor dto rec ≡ ok (u, db')
      → IsClear db'
  unfolding update_anchor
  update_anchor-IsClear db anchor (some rec) u db' c h =
      update_siblings-IsClear db anchor rec u db' c h
  update_anchor-IsClear db anchor none u db' c h =
      elim (Result-cases (update fmt db now tenant user role anchor.id dto)) [
        | inr (x, q) ↦ absurd (ground arith)
        | inl ((b, d), q) ↦
            let (mid, e, rows, k) = update_ok fmt db now tenant user role anchor.id dto b d q in
            let same : d ≡ db' = ground arith in
            subst IsClear same (
              Keeps-IsClear db d
                (Keeps-trans db mid d
                  (apply_update-Keeps fmt db now tenant user role anchor.id dto b mid e) k)
                c.composite
                (subst (NoDoubleBooking db.resources) (sym rows) (
                  apply_update-NoDoubleBooking fmt db now tenant user role anchor.id dto b mid
                    c.composite c.free e)))
      ]

  -- A successful update of a series, whichever of its occurrences it moves or skips, leaves no two bookings in
  -- the same space at one instant, where the rooms were well formed and free of double bookings.
  pub update_series-IsClear :
      (db : Db) (id : ℕ) (u : SeriesUpdate) (db' : Db)
      → IsClear db
      → update_series fmt db now tenant user role id dto ≡ ok (u, db')
      → IsClear db'
  unfolding update_series
  update_series-IsClear db id u db' c h = elim (Option-cases (find_booking db tenant id)) [
    | inl e ↦ absurd (ground arith)
    | inr (anchor, e) ↦ update_anchor-IsClear db anchor anchor.recurrence_id u db' c (ground arith)
  ]
