-- ===== src/Bookings/Recurrence/Cancelled.antt =====
-- recurrence.service.ts: after `cancelSeries` no booking of the series is open.
use booking_system.Base.{
  ℕ, ◌≡◌, refl, sym, ap, subst, ◌∙◌, ◌⊎◌, inl, inr, true, false, not, ◌&&◌, some, List, [], ◌∷◌,
  Text, find, find-In, ==_refl, keep, change, ◌==◌, All, All-imp, ok, arith, Option-cases,
  Bool-cases, if◌then◌else◌,
}
use booking_system.Common.Roles.{is_admin}
use booking_system.Store.Booking.{
  Booking, BookingStatus, cancelled, confirmed, pending_approval, checked_in, no_show, attended,
  exception, is_terminal,
}
use booking_system.Store.Db.{Db, find_booking, save_booking}
use booking_system.Bookings.Cancel.{cancel, cancel_status, cancelled_booking, commit_cancel}
use booking_system.Bookings.Recurrence.Series.{
  SeriesDb, Recurrence, cancel_all, cancel_series, after_cancel, of_series, reason_or,
}

-- What a saved row does to the row that an id finds.
find-save_booking :
    (tenant id : ℕ) (s : Booking) (bs : List Booking) {b : Booking}
    → s.tenant_id ≡ tenant
    → find (λ (c : Booking). c.id == id && c.tenant_id == tenant) bs ≡ some b
    → find
        (λ (c : Booking). c.id == id && c.tenant_id == tenant)
        (change (λ (c : Booking). c.id == s.id) (λ _. s) bs)
      ≡ some (if id == s.id then s else b)
find-save_booking tenant id s [] t h = absurd (ground arith)
find-save_booking tenant id s (x ∷ xs) {b} t h =
    elim (Bool-cases (x.id == id && x.tenant_id == tenant)) [
      | inl e ↦ ground arith
      | inr e ↦ let r = find-save_booking tenant id s xs {b = b} t (ground arith) in ground arith
    ]

cancel_status-cases :
    (s : BookingStatus)
    → (is_terminal s ≡ true)
      ⊎ ((db : Db) (b : Booking) (r : Text)
          → cancel_status s db b r
            ≡ ok (cancelled_booking b r, commit_cancel db (cancelled_booking b r)))
cancel_status-cases confirmed = inr (λ db b r. refl)
cancel_status-cases pending_approval = inr (λ db b r. refl)
cancel_status-cases exception = inr (λ db b r. refl)
cancel_status-cases cancelled = inl refl
cancel_status-cases checked_in = inl refl
cancel_status-cases no_show = inl refl
cancel_status-cases attended = inl refl

cancel_status-terminal :
    (s : BookingStatus) (db : Db) (b : Booking) (r : Text)
    → is_terminal s ≡ true
    → after_cancel db (cancel_status s db b r) ≡ db
cancel_status-terminal cancelled db b r h = refl
cancel_status-terminal checked_in db b r h = refl
cancel_status-terminal no_show db b r h = refl
cancel_status-terminal attended db b r h = refl
cancel_status-terminal confirmed db b r h = cc
cancel_status-terminal pending_approval db b r h = cc
cancel_status-terminal exception db b r h = cc

module _ (tenant user : ℕ) (role : Text) where
  -- The id finds a booking that the caller may cancel.
  record IsAllowed (db : Db) (id : ℕ) : Type 0 where
    row : Booking
    found : find_booking db tenant id ≡ some row
    may : (not (row.user_id == user) && not (is_admin role)) ≡ false

  -- The id finds a booking that is settled.
  pub record IsClosed (db : Db) (id : ℕ) : Type 0 where
    pub row : Booking
    pub found : find_booking db tenant id ≡ some row
    pub closed : is_terminal row.status ≡ true

  -- What a cancellation does to the rows.
  data Effect (db : Db) (id : ℕ) (reason : Text) : Db → Type 0 where
    nothing : Effect db id reason db
    writes :
        (b : Booking) (db' : Db)
        → find_booking db tenant id ≡ some b
        → db'.bookings ≡ (save_booking db (cancelled_booking b reason)).bookings
        → Effect db id reason db'

  cancel-Effect :
      (db : Db) (id : ℕ) (reason : Text)
      → Effect db id reason (after_cancel db (cancel db tenant user role id reason))
  unfolding cancel
  cancel-Effect db id reason = elim (Option-cases (find_booking db tenant id)) [
    | inl e ↦ rw e nothing
    | inr (b, e) ↦ elim (Bool-cases (not (b.user_id == user) && not (is_admin role))) [
      | inl f ↦ rw (e, f) nothing
      | inr f ↦ elim (cancel_status-cases b.status) [
        | inl t ↦
            let q = cancel_status-terminal b.status db b reason t in
            rw (e, f) (subst (Effect db id reason) (sym q) nothing)
        | inr w ↦ rw (e, f, w db b reason) (writes b _ e refl)
      ]
    ]
  ]

  -- The row of an id after the write of another or the same.
  written :
      (db db' : Db) (id other : ℕ) (reason : Text) (b c : Booking)
      → find_booking db tenant id ≡ some b
      → find_booking db tenant other ≡ some c
      → db'.bookings ≡ (save_booking db (cancelled_booking b reason)).bookings
      → (find_booking db' tenant other
          ≡ some (if other == b.id then cancelled_booking b reason else c))
        × (other == b.id ≡ true → c ≡ b)
  written db db' id other reason b c h k w =
      let f = find-In (λ (x : Booking). x.id == id && x.tenant_id == tenant) db.bookings h in
      let t : b.tenant_id ≡ tenant = (let g = f.1 in ground arith) in
      let i : b.id ≡ id = (let g = f.1 in ground arith) in
      (
        ap
              (λ (bs : List Booking).
                find (λ (x : Booking). x.id == other && x.tenant_id == tenant) bs)
              w
            ∙ find-save_booking tenant other (cancelled_booking b reason) db.bookings t k,
        λ e.
            let same : other ≡ id = ground arith in
            let k' = subst (λ n. find_booking db tenant n ≡ some c) same k in
            (let q : some c ≡ some b = sym k' ∙ h in ground arith),
      )

  effect-IsAllowed :
      (db db' : Db) (id other : ℕ) (reason : Text)
      → Effect db id reason db'
      → IsAllowed db other
      → IsAllowed db' other
  effect-IsAllowed db db' id other reason nothing a = a
  effect-IsAllowed db db' id other reason (writes b d h w) a =
      let (f, same) = written db d id other reason b a.row h a.found w in
      elim (Bool-cases (other == b.id)) [
        | inl e ↦ record {
          row = cancelled_booking b reason;
          found = rw e at f;
          may =
              (let q = same e in
                subst (λ (x : Booking). (not (x.user_id == user) && not (is_admin role)) ≡ false) q
                  a.may);
        }
        | inr e ↦ record { row = a.row; found = rw e at f; may = a.may }
      ]

  effect-IsClosed :
      (db db' : Db) (id other : ℕ) (reason : Text)
      → Effect db id reason db'
      → IsClosed db other
      → IsClosed db' other
  effect-IsClosed db db' id other reason nothing a = a
  effect-IsClosed db db' id other reason (writes b d h w) a =
      let (f, same) = written db d id other reason b a.row h a.found w in
      elim (Bool-cases (other == b.id)) [
        | inl e ↦ record { row = cancelled_booking b reason; found = rw e at f; closed = refl }
        | inr e ↦ record { row = a.row; found = rw e at f; closed = a.closed }
      ]

  -- A cancellation that the caller may make closes the booking, if it was not closed before.
  cancel-IsClosed :
      (db : Db) (id : ℕ) (reason : Text)
      → IsAllowed db id
      → IsClosed (after_cancel db (cancel db tenant user role id reason)) id
  unfolding cancel
  cancel-IsClosed db id reason a = elim (cancel_status-cases a.row.status) [
    | inl t ↦
        rw (a.found, a.may)
          (subst (λ (d : Db). IsClosed d id)
            (sym (cancel_status-terminal a.row.status db a.row reason t))
            (record { row = a.row; found = a.found; closed = t }))
    | inr w ↦
        rw (a.found, a.may, w db a.row reason)
          (closed_by a (commit_cancel db (cancelled_booking a.row reason)) refl)
  ]
    where
      closed_by :
          (a : IsAllowed db id) (db' : Db)
          → db'.bookings ≡ (save_booking db (cancelled_booking a.row reason)).bookings
          → IsClosed db' id
      closed_by a db' w =
          let (f, same) = written db db' id id reason a.row a.row a.found a.found w in
          let g =
            find-In (λ (x : Booking). x.id == id && x.tenant_id == tenant) db.bookings a.found in
          let e : id == a.row.id ≡ true = (let h = g.1 in ground (arith, ==_refl id)) in
          record { row = cancelled_booking a.row reason; found = rw e at f; closed = refl }

  -- A row of the series, as it was when the cancellation began.
  abbrev IsReady : Db → Booking → Type 0
  IsReady db c = IsAllowed db c.id × (is_terminal c.status ≡ true → IsClosed db c.id)

  cancel_all-IsClosed :
      (reason : Text) (cs : List Booking) (db : Db) (id : ℕ)
      → IsClosed db id
      → IsClosed (cancel_all tenant user role reason cs db) id
  unfolding cancel_all
  cancel_all-IsClosed reason [] db id d = d
  cancel_all-IsClosed reason (c ∷ cs) db id d = elim (Bool-cases (is_terminal c.status)) [
    | inl e ↦ rw e (cancel_all-IsClosed reason cs db id d)
    | inr e ↦
        let next = after_cancel db (cancel db tenant user role c.id (reason_or reason)) in
        rw e (
          cancel_all-IsClosed reason cs next id (
            effect-IsClosed db next c.id id (reason_or reason)
              (cancel-Effect db c.id (reason_or reason)) d))
  ]

  cancel_all-skips :
      (reason : Text) (c : Booking) (cs : List Booking) (db : Db)
      → is_terminal c.status ≡ true
      → cancel_all tenant user role reason (c ∷ cs) db ≡ cancel_all tenant user role reason cs db
  unfolding cancel_all
  cancel_all-skips reason c cs db e = rw e refl

  cancel_all-cancels :
      (reason : Text) (c : Booking) (cs : List Booking) (db : Db)
      → is_terminal c.status ≡ false
      → cancel_all tenant user role reason (c ∷ cs) db
        ≡ cancel_all tenant user role reason cs
            (after_cancel db (cancel db tenant user role c.id (reason_or reason)))
  unfolding cancel_all
  cancel_all-cancels reason c cs db e = rw e refl

  abbrev AreClosed : List Booking → Db → Type 0
  AreClosed cs db = All (λ (c : Booking). IsClosed db c.id) cs

  cancel_all-closes :
      (reason : Text) (cs : List Booking) (db : Db)
      → All (IsReady db) cs
      → AreClosed cs (cancel_all tenant user role reason cs db)
  cancel_all-closes reason [] db r = tt
  cancel_all-closes reason (c ∷ cs) db (h, r) = elim (Bool-cases (is_terminal c.status)) [
    | inl e ↦
        subst (AreClosed (c ∷ cs)) (sym (cancel_all-skips reason c cs db e))
          (cancel_all-IsClosed reason cs db c.id (h.1 e), cancel_all-closes reason cs db r)
    | inr e ↦
        let why = reason_or reason in
        let next = after_cancel db (cancel db tenant user role c.id why) in
        let eff = cancel-Effect db c.id why in
        subst (AreClosed (c ∷ cs)) (sym (cancel_all-cancels reason c cs db e)) (
          cancel_all-IsClosed reason cs next c.id (cancel-IsClosed db c.id why h.0),
          cancel_all-closes reason cs next (
              All-imp (IsReady db) (IsReady next) cs
                (λ d i. (
                  effect-IsAllowed db next c.id d.id why eff i.0,
                  λ t. effect-IsClosed db next c.id d.id why eff (i.1 t),
                ))
                r),
        )
  ]

  -- The caller may cancel the row, and its id finds it.
  pub record IsOwn (db : Db) (c : Booking) : Type 0 where
    pub found : find_booking db tenant c.id ≡ some c
    pub may : (not (c.user_id == user) && not (is_admin role)) ≡ false

  -- Where the caller may cancel each booking of the series and ids find their rows, a successful cancellation of a series
  -- leaves each of its bookings Cancelled, or settled as No Show, Checked In or Attended.
  pub cancel_series-closes :
      (st st' : SeriesDb) (id : ℕ) (reason : Text) (rec : Recurrence)
      → All (IsOwn st.db) (keep (of_series tenant id) st.db.bookings)
      → cancel_series st tenant user role id reason ≡ ok (rec, st')
      → All (λ (c : Booking). IsClosed st'.db c.id) (keep (of_series tenant id) st.db.bookings)
  unfolding cancel_series
  cancel_series-closes st st' id reason rec own h =
      let cs = keep (of_series tenant id) st.db.bookings in
      let q : cancel_all tenant user role reason cs st.db ≡ st'.db = ground arith in
      subst (λ d. All (λ (c : Booking). IsClosed d c.id) cs) q
        (cancel_all-closes reason cs st.db (
          All-imp (IsOwn st.db) (IsReady st.db) cs
            (λ c o. (
              record { row = c; found = o.found; may = o.may },
              λ t. record { row = c; found = o.found; closed = t },
            ))
            own))
