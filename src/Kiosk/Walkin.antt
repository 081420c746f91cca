-- ===== src/Kiosk/Walkin.antt =====
-- kiosk.service.ts: who may use a display, and what a walk-in booking is apart from.
use booking_system.Base.{
  ℕ, ◌+◌, ◌*◌, ◌<◌, ◌≡◌, refl, sym, subst, ◌∙◌, ◌⊎◌, inl, inr, true, false, some, ◌∷◌, Text,
  text_eq_iff, is_empty, any, ◌==◌, ok, arith, In, any-false, Bool-cases, Option-cases,
  Result-cases, find-In,
}
use booking_system.Common.Tz.{minute_ms}
use booking_system.Store.Booking.{Booking, is_released}
use booking_system.Store.Resource.{Resource}
use booking_system.Store.Db.{Db}
use booking_system.Bookings.Conflict.Composite.{Occupies, has_part}
use booking_system.Bookings.NoOverlap.Writes.{NoDoubleBooking}
use booking_system.Kiosk.{Env, expected_token, assert_token, find_any, occupies, quick_book}

-- The request has the token of the tenant, or the process is an insecure local one without a token.
abbrev pub IsTrusted : Env → Text → ℕ → Type 0
IsTrusted env token tenant =
    ((is_empty (expected_token env tenant) ≡ true) × (env.insecure_local ≡ true))
    ⊎ ((is_empty token ≡ false) × (token ≡ expected_token env tenant))

assert_token-IsTrusted :
    (env : Env) (token : Text) (tenant : ℕ) {u : Unit {0}}
    → assert_token env token tenant ≡ ok u
    → IsTrusted env token tenant
unfolding assert_token
assert_token-IsTrusted env token tenant h =
    let e = expected_token env tenant in
    elim (Bool-cases (is_empty e)) [
      | inl f ↦ inl (f, ground arith)
      | inr f ↦ inr (ground arith, (text_eq_iff token e).0 (ground arith))
    ]

-- The steps of a walk-in booking that goes through.
record IsWalkin (env : Env) (db : Db) (now id minutes : ℕ) (token : Text) (b : Booking) (db' : Db)
    : Type 0 where
  room : Resource
  found : find_any db id ≡ some room
  trusted : assert_token env token room.tenant_id ≡ ok tt
  free : any (occupies id now (now + minutes * minute_ms)) db.bookings ≡ false
  tenant : b.tenant_id ≡ room.tenant_id
  at : b.resource_id ≡ room.id
  new : b.id ≡ db.next_id
  start : b.start_time ≡ now
  end : b.end_time ≡ now + minutes * minute_ms
  active : is_released b.status ≡ false
  rows : db'.bookings ≡ b ∷ db.bookings

quick_book_ok :
    (env : Env) (db : Db) (now id minutes : ℕ) (title token : Text) {b : Booking} {db' : Db}
    → quick_book env db now id minutes title token ≡ ok (b, db')
    → IsWalkin env db now id minutes token b db'
unfolding quick_book
quick_book_ok env db now id minutes title token {b} {db'} h = elim (Option-cases (find_any db id)) [
  | inl e ↦ absurd (ground arith)
  | inr (r, e) ↦ elim (Result-cases (assert_token env token r.tenant_id)) [
    | inr (x, f) ↦ absurd (ground arith)
    | inl (u, f) ↦ elim (Option-cases env.user) [
      | inl g ↦ absurd (ground arith)
      | inr (user, g) ↦
          elim (Bool-cases (any (occupies id now (now + minutes * minute_ms)) db.bookings)) [
            | inl k ↦ absurd (ground arith)
            | inr k ↦ record {
              room = r;
              found = e;
              trusted = f;
              free = k;
              tenant = ground arith;
              at = ground arith;
              new = ground arith;
              start = ground arith;
              end = ground arith;
              active = ground arith;
              rows = ground arith;
            }
          ]
    ]
  ]
]

room_id : (db : Db) (id : ℕ) (r : Resource) → find_any db id ≡ some r → r.id ≡ id
room_id db id r h =
    let f = find-In (λ (x : Resource). x.id == id) db.resources h in let g = f.1 in ground arith

-- A walk-in booking that goes through has the token of the room's tenant, where a token is set or the process is not
-- an insecure local one, and at no instant holds the room together with another active booking of that same room.
pub quick_book-free :
    (env : Env) (db : Db) (now id minutes : ℕ) (title token : Text) (b : Booking) (db' : Db)
    → quick_book env db now id minutes title token ≡ ok (b, db')
    → IsTrusted env token b.tenant_id
      × ((a : Booking) (t : ℕ)
          → In a db.bookings
          → a.resource_id ≡ b.resource_id
          → Occupies a t
          → ¬ Occupies b t)
quick_book-free env db now id minutes title token b db' h =
    let w = quick_book_ok env db now id minutes title token h in
    let i = room_id db id w.room w.found in
    (
      subst (IsTrusted env token) (sym w.tenant)
          (assert_token-IsTrusted env token w.room.tenant_id w.trusted),
      λ a t ia same o p.
          let n = any-false (occupies id now (now + minutes * minute_ms)) db.bookings w.free ia in
          let q : a.resource_id ≡ id = same ∙ w.at ∙ i in
          let s = w.start in let e = w.end in ground arith,
    )

-- The check looks at the room alone: a walk-in booking of a whole that goes through while an active booking holds a
-- part of it leaves the two in the same space.
pub quick_book-double_books :
    (env : Env) (db : Db) (now id minutes : ℕ) (title token : Text) (b a : Booking) (db' : Db)
    (part : Resource)
    → quick_book env db now id minutes title token ≡ ok (b, db')
    → In part db.resources
    → part.tenant_id ≡ b.tenant_id
    → part.parent_resource_id ≡ some b.resource_id
    → In a db.bookings
    → a.resource_id ≡ part.id
    → a.tenant_id ≡ b.tenant_id
    → a.id < db.next_id
    → Occupies a now
    → 0 < minutes
    → ¬ NoDoubleBooking db.resources db'.bookings
quick_book-double_books env db now id minutes title token b a db' part h ip tp pp ia ra ta lt o m
      inv =
    let w = quick_book_ok env db now id minutes title token h in
    let inv' = subst (NoDoubleBooking db.resources) w.rows inv in
    let s = w.start in
    let e = w.end in
    let n = w.new in
    inv' b a now (inl refl) (inr ia) (λ q. omega arith) (sym ta)
      (w.active, omega arith, omega arith) o (has_part part ip tp (sym ra) pp)
