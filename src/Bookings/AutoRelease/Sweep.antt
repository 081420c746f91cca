-- ===== src/Bookings/AutoRelease/Sweep.antt =====
-- What a tick of auto-release.service.ts does to each booking.
use booking_system.Base.{
  ℕ, suc, ◌≡◌, refl, sym, ap, ◌∙◌, inl, inr, Bool, true, false, ◌&&◌, List, [], ◌∷◌, if◌then◌else◌,
  ◌==◌, any, change, map, arith, Bool-cases, includes, In,
}
use booking_system.Store.Booking.{Booking}
use booking_system.Store.Db.{Db}
use booking_system.Bookings.AutoRelease.{
  Env, holds, released_booking, release_notes, still_held, release, resolve_grace, release_enabled,
  overdue, visit, sweep,
}

abbrev pub ids : List Booking → List ℕ
ids cs = map (λ (b : Booking). b.id) cs

-- The row as the release leaves it.
abbrev pub freed : Booking → Booking
freed c = released_booking (release_notes c.exception_notes) c

module _ (env : Env) (db : Db) (now : ℕ) where
  -- Auto-release is on for the booking's tenant, and its grace period is over.
  unfoldable pub guard : Booking → Bool
  guard b = release_enabled env db b && overdue env db now b

  -- One row under the updates of a list of candidates.
  unfoldable pub row_after : List Booking → Booking → Booking
  unfolding guard
  row_after [] c = c
  row_after (b ∷ cs) c = row_after cs (
      if guard b && still_held b.id c
      then released_booking (release_notes b.exception_notes) c
      else c)

  row_after-free : (cs : List Booking) (c : Booking) → holds c ≡ false → row_after cs c ≡ c
  unfolding row_after
  row_after-free [] c h = refl
  row_after-free (b ∷ cs) c h =
      let r = row_after-free cs c h in
      let f : (guard b && still_held b.id c) ≡ false = ground arith in rw f r

  abbrev pub due : Booking → Bool
  due c = holds c && guard c

  pub row_after-eq :
      (cs : List Booking) (c : Booking)
      → ((b : Booking) → In b cs → b.id ≡ c.id → b ≡ c)
      → row_after cs c ≡ (if due c && includes (ids cs) c.id then freed c else c)
  unfolding row_after
  row_after-eq [] c u = ground arith
  row_after-eq (b ∷ cs) c u = elim (Bool-cases (b.id == c.id)) [
    | inl e ↦
        let q : b ≡ c = u b (inl refl) (ground arith) in
        elim (Bool-cases (due c)) [
          | inl d ↦
              let g : guard b ≡ true = ground (arith, ap guard q) in
              let n : released_booking (release_notes b.exception_notes) c ≡ freed c = cc in
              let t : (guard b && still_held b.id c) ≡ true = ground arith in
              let k : row_after cs (released_booking (release_notes b.exception_notes) c)
                  ≡ freed c =
                row_after-free cs (released_booking (release_notes b.exception_notes) c) refl ∙ n in
              rw (t, d, e) k
          | inr d ↦
              let g : guard b ≡ guard c = ap guard q in
              let t : (guard b && still_held b.id c) ≡ false = ground arith in
              let r = row_after-eq cs c (λ x i. u x (inr i)) in rw (t, d) (r ∙ ground arith)
        ]
    | inr e ↦
        let r = row_after-eq cs c (λ x i. u x (inr i)) in
        let t : (guard b && still_held b.id c) ≡ false = ground arith in rw (t, e) r
  ]

  map-row_after-nil : (bs : List Booking) → map (row_after []) bs ≡ bs
  unfolding row_after
  map-row_after-nil [] = refl
  map-row_after-nil (c ∷ bs) = ap (λ t. c ∷ t) (map-row_after-nil bs)

  map-row_after-skip :
      (cs : List Booking) (b : Booking) (bs : List Booking)
      → guard b ≡ false
      → map (row_after (b ∷ cs)) bs ≡ map (row_after cs) bs
  unfolding row_after
  map-row_after-skip cs b [] g = refl
  map-row_after-skip cs b (c ∷ bs) g =
      let r = map-row_after-skip cs b bs g in rw g (ap (λ t. row_after cs c ∷ t) r)

  map-row_after-none :
      (cs : List Booking) (b : Booking) (bs : List Booking)
      → any (still_held b.id) bs ≡ false
      → map (row_after (b ∷ cs)) bs ≡ map (row_after cs) bs
  unfolding row_after
  map-row_after-none cs b [] g = refl
  map-row_after-none cs b (c ∷ bs) g =
      let r = map-row_after-none cs b bs (ground arith) in
      let f : (guard b && still_held b.id c) ≡ false = ground arith in
      rw f (ap (λ t. row_after cs c ∷ t) r)

  map-row_after-change :
      (cs : List Booking) (b : Booking) (bs : List Booking)
      → guard b ≡ true
      → map
          (row_after cs)
          (change (still_held b.id) (released_booking (release_notes b.exception_notes)) bs)
        ≡ map (row_after (b ∷ cs)) bs
  unfolding row_after
  map-row_after-change cs b [] g = refl
  map-row_after-change cs b (c ∷ bs) g = let r = map-row_after-change cs b bs g in rw (g, r) refl

  guard-same :
      (d : Db) (b : Booking)
      → d.resources ≡ db.resources
      → d.customization ≡ db.customization
      → (release_enabled env d b && overdue env d now b) ≡ guard b
  unfolding guard release_enabled overdue resolve_grace
  guard-same d b e f = rw (e, f) refl

  -- What the visit of one candidate leaves, where the policy is that of `db`.
  visit-eq :
      (d : Db) (b : Booking)
      → d.resources ≡ db.resources
      → d.customization ≡ db.customization
      → visit env now d b ≡ (if guard b then release d b else (d, false))
  unfolding visit
  visit-eq d b e f = rw (guard-same d b e f) refl

  -- The loop changes the rows one by one; the policy it reads stays the same.
  pub sweep-rows :
      (cs : List Booking) (d : Db) (n : ℕ)
      → d.resources ≡ db.resources
      → d.customization ≡ db.customization
      → (sweep env now cs d n).0.bookings ≡ map (row_after cs) d.bookings
  unfolding sweep release
  sweep-rows [] d n e f = sym (map-row_after-nil d.bookings)
  sweep-rows (b ∷ cs) d n e f =
      let after = λ (v : Db × Bool). (sweep env now cs v.0 (if v.1 then suc n else n)).0.bookings in
      elim (Bool-cases (guard b)) [
        | inl g ↦ elim (Bool-cases (any (still_held b.id) d.bookings)) [
          | inl a ↦
              let d' = (release d b).0 in
              let v : visit env now d b ≡ (d', true) = ground (arith, visit-eq d b e f) in
              let k : d'.bookings
                  ≡ change (still_held b.id) (released_booking (release_notes b.exception_notes))
                      d.bookings =
                ground arith in
              let r : d'.resources ≡ db.resources = ground arith in
              let s : d'.customization ≡ db.customization = ground arith in
              ap after v
              ∙ (sweep-rows cs d' (suc n) r s
                  ∙ (ap (map (row_after cs)) k ∙ map-row_after-change cs b d.bookings g))
          | inr a ↦
              let v : visit env now d b ≡ (d, false) = ground (arith, visit-eq d b e f) in
              ap after v ∙ (sweep-rows cs d n e f ∙ sym (map-row_after-none cs b d.bookings a))
        ]
        | inr g ↦
            let v : visit env now d b ≡ (d, false) = ground (arith, visit-eq d b e f) in
            ap after v ∙ (sweep-rows cs d n e f ∙ sym (map-row_after-skip cs b d.bookings g))
      ]
