-- ===== src/Approvals/Sweeps/Races.antt =====
-- The stale-request sweep of approvals.service.ts against decisions that come first.
use booking_system.Base.{
  ℕ, suc, ◌≡◌, refl, subst, ◌∙◌, ◌⊎◌, inl, inr, Bool, true, false, List, [], ◌∷◌, if◌then◌else◌,
  any, any-false, change, All, sym, In, In-change, arith, Bool-cases,
}
use booking_system.Store.Booking.{Booking, is_pending_approval}
use booking_system.Store.Outbox.{booking_rejected}
use booking_system.Store.Db.{Db}
use booking_system.Approvals.Decide.{rejected_booking}
use booking_system.Approvals.Decide.Outcome.{notify_decision-rows}
use booking_system.Approvals.Sweeps.{
  stale_note, still_pending, open_step, closed_step, auto_reject_stale, reject_all,
}

any-none :
    {A : Type 0} (p : A → Bool) (xs : List A) → ((a : A) → In a xs → p a ≡ false) → any p xs ≡ false
any-none p [] h = refl
any-none p (x ∷ xs) h = ground (arith, h x (inl refl), any-none p xs (λ a i. h a (inr i)))

any-change-false :
    {A : Type 0} (p : A → Bool) (f : A → A) (xs : List A)
    → ((a : A) → p (f a) ≡ false)
    → any p (change p f xs) ≡ false
any-change-false p f [] h = refl
any-change-false p f (x ∷ xs) h = elim (Bool-cases (p x)) [
  | inl e ↦ rw (e, h x) (any-change-false p f xs h)
  | inr e ↦ rw (e, e) (any-change-false p f xs h)
]

abbrev closed : Db → ℕ → ℕ → ℕ → Db
closed db now tenant id = record db {
  bookings = change (still_pending tenant id) (rejected_booking stale_note) db.bookings;
  steps = change (open_step tenant id) (closed_step now) db.steps;
}

-- Where the booking still waits, its rejection goes through, and leaves it not waiting and none of its steps open; where it
-- does not wait any more, the request having been decided, the call leaves the database as it is and reports no rejection.
pub auto_reject_stale-settles :
    (db : Db) (now tenant id : ℕ)
    → (any (still_pending tenant id) db.bookings ≡ true
        → ((auto_reject_stale db now tenant id).1 ≡ true)
          × (any (still_pending tenant id) (auto_reject_stale db now tenant id).0.bookings ≡ false)
          × (any (open_step tenant id) (auto_reject_stale db now tenant id).0.steps ≡ false))
      × (any (still_pending tenant id) db.bookings ≡ false
          → auto_reject_stale db now tenant id ≡ (db, false))
unfolding auto_reject_stale
auto_reject_stale-settles db now tenant id = (
  λ e.
      let b =
        any-change-false (still_pending tenant id) (rejected_booking stale_note) db.bookings
          (λ a. ground arith) in
      let s =
        any-change-false (open_step tenant id) (closed_step now) db.steps (λ a. ground arith) in
      let r = notify_decision-rows (closed db now tenant id) tenant id booking_rejected in
      (ground arith, (rw (e, r.0) b), (rw (e, r.1) s)),
  λ e. rw e refl,
)

-- After the call the booking does not wait, whether it was decided before or now.
auto_reject_stale-closes :
    (db : Db) (now tenant id : ℕ)
    → any (still_pending tenant id) (auto_reject_stale db now tenant id).0.bookings ≡ false
auto_reject_stale-closes db now tenant id =
    let s = auto_reject_stale-settles db now tenant id in
    elim (Bool-cases (any (still_pending tenant id) db.bookings)) [
      | inl e ↦ (s.0 e).1
      | inr e ↦ rw (s.1 e) e
    ]

-- A row of after is one of before, unchanged or rejected while it waited.
abbrev pub RejectsPending : List Booking → List Booking → Type 0
RejectsPending old new =
    (d : Booking)
    → In d new
    → (c : Booking) × In c old
      × ((d ≡ c) ⊎ ((is_pending_approval c.status ≡ true) × (d ≡ rejected_booking stale_note c)))

RejectsPending-refl : (bs : List Booking) → RejectsPending bs bs
RejectsPending-refl bs d i = (d, i, inl refl)

RejectsPending-trans :
    (xs ys zs : List Booking) → RejectsPending xs ys → RejectsPending ys zs → RejectsPending xs zs
RejectsPending-trans xs ys zs f g d i =
    let (c, ci, q) = g d i in let (b, bi, r) = f c ci in (b, bi, go b c q r)
  where
    go :
        (b c : Booking)
        → (d ≡ c) ⊎ ((is_pending_approval c.status ≡ true) × (d ≡ rejected_booking stale_note c))
        → (c ≡ b) ⊎ ((is_pending_approval b.status ≡ true) × (c ≡ rejected_booking stale_note b))
        → (d ≡ b) ⊎ ((is_pending_approval b.status ≡ true) × (d ≡ rejected_booking stale_note b))
    go b c (inl e) (inl f) = inl (e ∙ f)
    go b c (inl e) (inr (p, f)) = inr (p, e ∙ f)
    go b c (inr (p, e)) (inl f) = inr (
      subst (λ (x : Booking). is_pending_approval x.status ≡ true) f p,
      subst (λ x. d ≡ rejected_booking stale_note x) f e,
    )
    go b c (inr (p, e)) (inr (q, f)) =
        absurd (stuck (subst (λ (x : Booking). is_pending_approval x.status ≡ true) f p))
      where
        stuck : is_pending_approval (rejected_booking stale_note b).status ≡ true → ⊥
        stuck h = cc

auto_reject_stale-RejectsPending :
    (db : Db) (now tenant id : ℕ)
    → RejectsPending db.bookings (auto_reject_stale db now tenant id).0.bookings
unfolding auto_reject_stale
auto_reject_stale-RejectsPending db now tenant id =
    elim (Bool-cases (any (still_pending tenant id) db.bookings)) [
      | inl e ↦
          let r = notify_decision-rows (closed db now tenant id) tenant id booking_rejected in
          rw (e, r.0) (λ d i. changed d i)
      | inr e ↦ rw e (RejectsPending-refl db.bookings)
    ]
  where
    changed :
        RejectsPending db.bookings
          (change (still_pending tenant id) (rejected_booking stale_note) db.bookings)
    changed d i =
        let (c, ci, q) =
          In-change (still_pending tenant id) (rejected_booking stale_note) db.bookings i in
        (c, ci, elim q [ inl (p, e) ↦ inr (ground arith, e) | inr (p, e) ↦ inl e ])

reject_all-RejectsPending :
    (now : ℕ) (stale : List Booking) (db : Db) (n : ℕ)
    → RejectsPending db.bookings (reject_all now stale db n).0.bookings
unfolding reject_all
reject_all-RejectsPending now [] db n = RejectsPending-refl db.bookings
reject_all-RejectsPending now (b ∷ stale) db n =
    let db' = (auto_reject_stale db now b.tenant_id b.id).0 in
    RejectsPending-trans db.bookings db'.bookings (reject_all now (b ∷ stale) db n).0.bookings
      (auto_reject_stale-RejectsPending db now b.tenant_id b.id)
      (reject_all-RejectsPending now stale db'
        (if (auto_reject_stale db now b.tenant_id b.id).1 then suc n else n))

-- Where no row of a booking waits, none waits after rejections.
settled-RejectsPending :
    (tenant id : ℕ) (old new : List Booking)
    → RejectsPending old new
    → any (still_pending tenant id) old ≡ false
    → any (still_pending tenant id) new ≡ false
settled-RejectsPending tenant id old new r h = any-none (still_pending tenant id) new (λ d i.
    let (c, ci, q) = r d i in
    let k = any-false (still_pending tenant id) old h ci in
    elim q [
      | inl e ↦ subst (λ (x : Booking). still_pending tenant id x ≡ false) (sym e) k
      | inr (p, e) ↦
          subst (λ (x : Booking). still_pending tenant id x ≡ false) (sym e) (ground arith)
    ])

reject_all-closes :
    (now : ℕ) (stale : List Booking) (db : Db) (n : ℕ)
    → All
        (λ (b : Booking).
          any (still_pending b.tenant_id b.id) (reject_all now stale db n).0.bookings ≡ false)
        stale
unfolding reject_all
reject_all-closes now [] db n = tt
reject_all-closes now (b ∷ stale) db n =
    let r = auto_reject_stale db now b.tenant_id b.id in
    let m = if r.1 then suc n else n in
    (
      settled-RejectsPending b.tenant_id b.id r.0.bookings (reject_all now stale r.0 m).0.bookings
          (reject_all-RejectsPending now stale r.0 m)
          (auto_reject_stale-closes db now b.tenant_id b.id),
      reject_all-closes now stale r.0 m,
    )

-- The loop of the sweep, over any list of stale rows and on any database, so also where rows of the list were decided
-- after it was read: it rejects only bookings that still wait for approval and changes no other, and afterwards no
-- booking of the list waits.
pub reject_all-Outcome :
    (now : ℕ) (stale : List Booking) (db : Db)
    → RejectsPending db.bookings (reject_all now stale db 0).0.bookings
      × All
          (λ (b : Booking).
            any (still_pending b.tenant_id b.id) (reject_all now stale db 0).0.bookings ≡ false)
          stale
reject_all-Outcome now stale db =
    (reject_all-RejectsPending now stale db 0, reject_all-closes now stale db 0)
