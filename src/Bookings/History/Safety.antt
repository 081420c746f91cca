-- ===== src/Bookings/History/Safety.antt =====
-- After any history the rooms are free of double bookings, and a settled booking stays as it was.
use booking_system.Base.{
  ℕ, ◌<◌, ◌≡◌, refl, sym, ap, subst, ◌∙◌, ◌⊎◌, inl, inr, ◌≢◌, true, Option, List, [], ◌∷◌, Text,
  arith, In, change, ◌==◌,
}
use booking_system.Common.Tz.{Parts}
use booking_system.Store.Booking.{Booking, is_terminal}
use booking_system.Store.Resource.{Resource}
use booking_system.Store.Db.{Db}
use booking_system.Bookings.Conflict.Composite.{IsComposite}
use booking_system.Bookings.NoOverlap.Writes.{
  NoDoubleBooking, Evolves, Evolves-NoDoubleBooking, In-Saved,
}
use booking_system.Bookings.NoOverlap.Create.{create-NoDoubleBooking, created_rows}
use booking_system.Bookings.NoOverlap.Update.{apply_update-NoDoubleBooking, apply_update-live}
use booking_system.Bookings.History.{Call, step, run}
use booking_system.Bookings.History.Moves.{Move, quiet, adds, edits, step-Move}

-- The rooms are those given, and free of double bookings.
abbrev IsSafe : List Resource → Db → Type 0
IsSafe rs db = (db.resources ≡ rs) × NoDoubleBooking rs db.bookings

Move-IsSafe :
    (fmt : Text → ℕ → Option Parts) (db db' : Db)
    → IsComposite db.resources
    → Move fmt db db'
    → NoDoubleBooking db.resources db.bookings
    → NoDoubleBooking db.resources db'.bookings
Move-IsSafe fmt db db' wf (quiet k ev) inv =
    Evolves-NoDoubleBooking db.resources db.bookings db'.bookings ev inv
Move-IsSafe fmt db db' wf (adds now tenant user dto s b k h) inv =
    create-NoDoubleBooking fmt db now tenant user dto s b db' wf inv h
Move-IsSafe fmt db db' wf (edits now tenant user role id dto b mid k h rows) inv =
    subst (NoDoubleBooking db.resources) (sym rows)
      (apply_update-NoDoubleBooking fmt db now tenant user role id dto b mid wf inv h)

Move-rooms :
    {fmt : Text → ℕ → Option Parts} {db db' : Db} → Move fmt db db' → db'.resources ≡ db.resources
Move-rooms (quiet k ev) = k.0
Move-rooms (adds now tenant user dto s b k h) = k.0
Move-rooms (edits now tenant user role id dto b mid k h rows) = k.0

module _ (fmt : Text → ℕ → Option Parts) (rs : List Resource) (wf : IsComposite rs) where
  step-IsSafe : (db : Db) (c : ℕ × Call) → IsSafe rs db → IsSafe rs (step fmt db c)
  step-IsSafe db (now, c) (e, inv) =
      let m = step-Move fmt db now c in
      (
        Move-rooms m ∙ e,
        subst (λ r. NoDoubleBooking r (step fmt db (now, c)).bookings) e
            (Move-IsSafe fmt db (step fmt db (now, c)) (subst IsComposite (sym e) wf) m
              (subst (λ r. NoDoubleBooking r db.bookings) (sym e) inv)),
      )

  run-IsSafe : (db : Db) (cs : List (ℕ × Call)) → IsSafe rs db → IsSafe rs (run fmt db cs)
  unfolding run
  run-IsSafe db [] inv = inv
  run-IsSafe db (c ∷ cs) inv = run-IsSafe (step fmt db c) cs (step-IsSafe db c inv)

-- Where ids of rooms are unique and their parent and child modes fit, no history of calls of the
-- booking services, in any order and at any times, leads from a table without double bookings to one
-- in which two bookings of a tenant hold common space at one instant.
pub run-NoDoubleBooking :
    (fmt : Text → ℕ → Option Parts) (db : Db) (cs : List (ℕ × Call))
    → IsComposite db.resources
    → NoDoubleBooking db.resources db.bookings
    → NoDoubleBooking db.resources (run fmt db cs).bookings
run-NoDoubleBooking fmt db cs wf inv = (run-IsSafe fmt db.resources wf db cs (refl, inv)).1

-- Each row of the booking's id is settled, in its room and window.
abbrev pub IsSettled : Booking → List Booking → Type 0
IsSettled b bs =
    (x : Booking)
    → In x bs
    → x.id ≡ b.id
    → (is_terminal x.status ≡ true)
      × (x.tenant_id ≡ b.tenant_id)
      × (x.resource_id ≡ b.resource_id)
      × (x.start_time ≡ b.start_time)
      × (x.end_time ≡ b.end_time)

Evolves-IsSettled :
    (b : Booking) (bs bs' : List Booking) → Evolves bs bs' → IsSettled b bs → IsSettled b bs'
Evolves-IsSettled b bs bs' ev st x i e =
    let (c, ic, n) = ev x i in
    let (t, p, q, r, s) = st c ic (sym n.id ∙ e) in
    (n.settled t, n.tenant ∙ p, n.room ∙ q, n.start ∙ r, n.end ∙ s)

insert-IsSettled :
    (b d : Booking) (bs : List Booking) → d.id ≢ b.id → IsSettled b bs → IsSettled b (d ∷ bs)
insert-IsSettled b d bs ne st x (inl e) q = absurd (ne (sym (ap (λ (z : Booking). z.id) e) ∙ q))
insert-IsSettled b d bs ne st x (inr i) q = st x i q

save-IsSettled :
    (b d : Booking) (bs : List Booking)
    → d.id ≢ b.id
    → IsSettled b bs
    → IsSettled b (change (λ (c : Booking). c.id == d.id) (λ _. d) bs)
save-IsSettled b d bs ne st x i q = row (In-Saved [] bs d x i)
  where
    row :
        (x ≡ d) ⊎ (In x bs × (x.id ≢ d.id))
        → (is_terminal x.status ≡ true)
          × (x.tenant_id ≡ b.tenant_id)
          × (x.resource_id ≡ b.resource_id)
          × (x.start_time ≡ b.start_time)
          × (x.end_time ≡ b.end_time)
    row (inl e) = absurd (ne (sym (ap (λ (z : Booking). z.id) e) ∙ q))
    row (inr o) = st x o.0 q

Move-IsSettled :
    (fmt : Text → ℕ → Option Parts) (b : Booking) (db db' : Db)
    → Move fmt db db'
    → b.id < db.next_id
    → IsSettled b db.bookings
    → (b.id < db'.next_id) × IsSettled b db'.bookings
Move-IsSettled fmt b db db' (quiet k ev) lt st =
    (omega arith, Evolves-IsSettled b db.bookings db'.bookings ev st)
Move-IsSettled fmt b db db' (adds now tenant user dto s d k h) lt st =
    let (draft, e, q, rows) = created_rows fmt db now tenant user dto s d db' h in
    let new : d.id ≡ db.next_id = ap (λ (z : Booking). z.id) q in
    (
      omega arith,
      subst (IsSettled b) (sym rows) (insert-IsSettled b d db.bookings (λ f. omega arith) st),
    )
Move-IsSettled fmt b db db' (edits now tenant user role id dto d mid k h rows) lt st =
    let (c, ic, live, same, saved) = apply_update-live fmt db now tenant user role id dto d mid h in
    (
      omega arith,
      subst (IsSettled b) (sym (rows ∙ ap (λ (z : Db). z.bookings) saved)) (
          save-IsSettled b d db.bookings (λ f. let t = (st c ic (sym same ∙ f)).0 in ground arith)
            st),
    )

-- Once a booking with an id that is not a fresh one is Cancelled, No Show, Checked In or Attended, no history of calls of the booking
-- services takes it out of these four states, or changes its tenant, room or window.
pub run-IsSettled :
    (fmt : Text → ℕ → Option Parts) (b : Booking) (db : Db) (cs : List (ℕ × Call))
    → b.id < db.next_id
    → IsSettled b db.bookings
    → IsSettled b (run fmt db cs).bookings
unfolding run
run-IsSettled fmt b db [] lt st = st
run-IsSettled fmt b db ((now, c) ∷ cs) lt st =
    let (lt', st') =
      Move-IsSettled fmt b db (step fmt db (now, c)) (step-Move fmt db now c) lt st in
    run-IsSettled fmt b (step fmt db (now, c)) cs lt' st'
