-- ===== src/Bookings/AutoRelease/Tick.antt =====
-- A tick of auto-release.service.ts against its policy.
use booking_system.Base.{
  ℕ, suc, ◌≤◌, ◌≡◌, refl, sym, ap, subst, ◌∙◌, inl, inr, Bool, true, ◌&&◌, List, [], ◌∷◌,
  if◌then◌else◌, ◌==◌, ltb, change, keep, take-all, length, map, arith, Bool-cases, includes, In,
  In-keep, keep-In, In-take, ==_refl,
}
use booking_system.Store.Booking.{Booking}
use booking_system.Store.Db.{Db}
use booking_system.Bookings.AutoRelease.{
  Env, is_candidate, by_start, insert_start, candidates, tick,
}
use booking_system.Bookings.AutoRelease.Sweep.{
  guard, freed, ids, row_after, row_after-eq, sweep-rows,
}

includes-ids :
    (rs : List Booking) (k : ℕ) → includes (ids rs) k ≡ true → (r : Booking) × In r rs × (r.id ≡ k)
includes-ids [] k h = cc
includes-ids (r ∷ rs) k h = elim (Bool-cases (r.id == k)) [
  | inl e ↦ (r, inl refl, ground arith)
  | inr e ↦ let (x, i, q) = includes-ids rs k (ground arith) in (x, inr i, q)
]

In-ids : (r : Booking) (rs : List Booking) → In r rs → includes (ids rs) r.id ≡ true
In-ids r [] i = elim i [ ]
In-ids r (x ∷ rs) (inl e) = rw e (ground (arith, ==_refl x.id))
In-ids r (x ∷ rs) (inr i) = ground (arith, In-ids r rs i)

In-insert_start : (a b : Booking) (cs : List Booking) → In a (insert_start b cs) → In a (b ∷ cs)
unfolding insert_start
In-insert_start a b [] i = i
In-insert_start a b (c ∷ cs) i = elim (Bool-cases (ltb c.start_time b.start_time)) [
  | inl e ↦ elim (rw e at i) [
    | inl q ↦ inr (inl q)
    | inr j ↦ elim (In-insert_start a b cs j) [ inl q ↦ inl q | inr k ↦ inr (inr k) ]
  ]
  | inr e ↦ rw e at i
]

insert_start-In : (a b : Booking) (cs : List Booking) → In a (b ∷ cs) → In a (insert_start b cs)
unfolding insert_start
insert_start-In a b [] i = i
insert_start-In a b (c ∷ cs) i = elim (Bool-cases (ltb c.start_time b.start_time)) [
  | inl e ↦ rw e (elim i [
    | inl q ↦ inr (insert_start-In a b cs (inl q))
    | inr j ↦ elim j [ inl q ↦ inl q | inr k ↦ inr (insert_start-In a b cs (inr k)) ]
  ])
  | inr e ↦ rw e i
]

In-by_start : (a : Booking) (bs : List Booking) → In a (by_start bs) → In a bs
unfolding by_start
In-by_start a [] i = i
In-by_start a (b ∷ bs) i = elim (In-insert_start a b (by_start bs) i) [
  | inl q ↦ inl q
  | inr j ↦ inr (In-by_start a bs j)
]

by_start-In : (a : Booking) (bs : List Booking) → In a bs → In a (by_start bs)
unfolding by_start
by_start-In a [] i = i
by_start-In a (b ∷ bs) (inl q) = insert_start-In a b (by_start bs) (inl q)
by_start-In a (b ∷ bs) (inr i) = insert_start-In a b (by_start bs) (inr (by_start-In a bs i))

length-insert_start :
    (b : Booking) (cs : List Booking) → length (insert_start b cs) ≡ suc (length cs)
unfolding insert_start
length-insert_start b [] = refl
length-insert_start b (c ∷ cs) = ground (arith, length-insert_start b cs)

length-by_start : (bs : List Booking) → length (by_start bs) ≡ length bs
unfolding by_start
length-by_start [] = refl
length-by_start (b ∷ bs) = length-insert_start b (by_start bs) ∙ ap suc (length-by_start bs)

-- No two bookings share an id.
abbrev pub Unique : List Booking → Type 0
Unique bs = (a b : Booking) → In a bs → In b bs → a.id ≡ b.id → a ≡ b

candidates_sound :
    (now : ℕ) (bs : List Booking) (b : Booking)
    → In b (candidates now bs)
    → In b bs × (is_candidate now b ≡ true)
unfolding candidates
candidates_sound now bs b i = In-keep (is_candidate now) bs (
    In-by_start b (keep (is_candidate now) bs)
      (In-take b 1000 (by_start (keep (is_candidate now) bs)) i))

candidates_complete :
    (now : ℕ) (bs : List Booking) (b : Booking)
    → length (keep (is_candidate now) bs) ≤ 1000
    → In b bs
    → is_candidate now b ≡ true
    → In b (candidates now bs)
unfolding candidates
candidates_complete now bs b l i h =
    let xs = keep (is_candidate now) bs in
    subst (λ ys. In b ys)
      (sym (take-all 1000 (by_start xs) (subst (λ n. n ≤ 1000) (sym (length-by_start xs)) l)))
      (by_start-In b xs (keep-In (is_candidate now) bs i h))

map-change :
    (p : Booking → Bool) (f g : Booking → Booking) (bs : List Booking)
    → ((b : Booking) → In b bs → g b ≡ (if p b then f b else b))
    → map g bs ≡ change p f bs
map-change p f g [] h = refl
map-change p f g (b ∷ bs) h =
    let r = map-change p f g bs (λ c i. h c (inr i)) in let s = h b (inl refl) in cc

module _ (env : Env) (db : Db) (now : ℕ) where
  candidate-ids :
      (c : Booking)
      → Unique db.bookings
      → length (keep (is_candidate now) db.bookings) ≤ 1000
      → In c db.bookings
      → includes (ids (candidates now db.bookings)) c.id ≡ is_candidate now c
  candidate-ids c u l i = elim (Bool-cases (is_candidate now c)) [
    | inl e ↦
        In-ids c (candidates now db.bookings) (candidates_complete now db.bookings c l i e) ∙ sym e
    | inr e ↦ elim (Bool-cases (includes (ids (candidates now db.bookings)) c.id)) [
      | inl t ↦
          let (y, yi, q) = includes-ids (candidates now db.bookings) c.id t in
          let (yb, yc) = candidates_sound now db.bookings y yi in
          let d : is_candidate now c ≡ true =
            subst (λ x. is_candidate now x ≡ true) (u y c yb i q) yc in
          absurd (ground arith)
      | inr f ↦ f ∙ sym e
    ]
  ]

  row_after-candidate :
      (c : Booking)
      → Unique db.bookings
      → length (keep (is_candidate now) db.bookings) ≤ 1000
      → In c db.bookings
      → row_after env db now (candidates now db.bookings) c
        ≡ (if is_candidate now c && guard env db now c then freed c else c)
  unfolding is_candidate
  row_after-candidate c u l i =
      let r =
        row_after-eq env db now (candidates now db.bookings) c
          (λ b j q. u b c (candidates_sound now db.bookings b j).0 i q) in
      let s = candidate-ids c u l i in r ∙ (rw s (ground arith))

  -- Where no two bookings share an id and at most 1000 are candidates, a tick releases exactly the
  -- candidates whose tenant has auto-release on and whose grace period, by the room's override, the
  -- tenant's default or the environment, is over, and changes no other booking.
  pub tick-rows :
      Unique db.bookings
      → length (keep (is_candidate now) db.bookings) ≤ 1000
      → (tick env db now).0.bookings
        ≡ change (λ (c : Booking). is_candidate now c && guard env db now c) freed db.bookings
  unfolding tick
  tick-rows u l =
      sweep-rows env db now (candidates now db.bookings) db 0 refl refl
      ∙ map-change (λ (c : Booking). is_candidate now c && guard env db now c) freed
          (row_after env db now (candidates now db.bookings)) db.bookings
          (λ c i. row_after-candidate c u l i)
