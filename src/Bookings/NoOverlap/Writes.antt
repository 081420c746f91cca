-- ===== src/Bookings/NoOverlap/Writes.antt =====
-- The invariant, and what one insert or one saved row does to it.
use booking_system.Base.{
  ℕ, ◌≤◌, ◌<◌, ◌≡◌, refl, sym, ap, subst, ◌∙◌, ◌⊎◌, inl, inr, ◌≢◌, Bool, true, false, List, [], ◌∷◌,
  ◌==◌, arith, change, In, In-change,
}
use booking_system.Store.Booking.{Booking, is_released, is_terminal}
use booking_system.Store.Resource.{Resource}
use booking_system.Bookings.Conflict.Composite.{Shares, Shares-sym, Occupies}

-- Two bookings of a tenant that hold their rooms at one instant are of rooms with no common space.
abbrev pub NoDoubleBooking : List Resource → List Booking → Type 0
NoDoubleBooking rs bs =
    (a b : Booking) (t : ℕ)
    → In a bs
    → In b bs
    → a.id ≢ b.id
    → a.tenant_id ≡ b.tenant_id
    → Occupies a t
    → Occupies b t
    → ¬ Shares rs a.tenant_id a.resource_id b.resource_id

-- The booking is apart from each other row.
abbrev pub IsApart : List Resource → List Booking → Booking → Type 0
IsApart rs bs b =
    (a : Booking) (t : ℕ)
    → In a bs
    → a.id ≢ b.id
    → a.tenant_id ≡ b.tenant_id
    → Occupies a t
    → Occupies b t
    → ¬ Shares rs b.tenant_id b.resource_id a.resource_id

flip :
    (rs : List Resource) (a b : Booking)
    → a.tenant_id ≡ b.tenant_id
    → Shares rs a.tenant_id a.resource_id b.resource_id
    → Shares rs b.tenant_id b.resource_id a.resource_id
flip rs a b e s = subst (λ t. Shares rs t b.resource_id a.resource_id) e (Shares-sym s)

pub insert-NoDoubleBooking :
    (rs : List Resource) (bs : List Booking) (b : Booking)
    → NoDoubleBooking rs bs
    → IsApart rs bs b
    → NoDoubleBooking rs (b ∷ bs)
insert-NoDoubleBooking rs bs b inv apart x y t (inl e) (inl f) ne te ox oy =
    absurd (ne (ap (λ (z : Booking). z.id) (e ∙ sym f)))
insert-NoDoubleBooking rs bs b inv apart x y t (inl e) (inr j) ne te ox oy =
    subst
      (λ (z : Booking).
        z.id ≢ y.id
        → z.tenant_id ≡ y.tenant_id
        → Occupies z t
        → ¬ Shares rs z.tenant_id z.resource_id y.resource_id)
      (sym e) (λ n te' o. apart y t j (λ q. n (sym q)) (sym te') oy o) ne te ox
insert-NoDoubleBooking rs bs b inv apart x y t (inr i) (inl f) ne te ox oy =
    subst
      (λ (z : Booking).
        x.id ≢ z.id
        → x.tenant_id ≡ z.tenant_id
        → Occupies z t
        → ¬ Shares rs x.tenant_id x.resource_id z.resource_id)
      (sym f) (λ n te' o s. apart x t i n te' ox o (flip rs x b te' s)) ne te oy
insert-NoDoubleBooking rs bs b inv apart x y t (inr i) (inr j) ne te ox oy =
    inv x y t i j ne te ox oy

module _ (rs : List Resource) (bs : List Booking) (b : Booking) where
  abbrev pub Saved : Booking → Type 0
  Saved x = (x ≡ b) ⊎ (In x bs × (x.id ≢ b.id))

  -- A row after a save is the saved one, or an old one of another id.
  pub In-Saved : (x : Booking) → In x (change (λ (c : Booking). c.id == b.id) (λ _. b) bs) → Saved x
  In-Saved x i = let r = In-change (λ (c : Booking). c.id == b.id) (λ _. b) bs i in old r.0 r.1 r.2
    where
      old :
          (c : Booking)
          → In c bs
          → (((c.id == b.id) ≡ true) × (x ≡ b)) ⊎ (((c.id == b.id) ≡ false) × (x ≡ c))
          → Saved x
      old c ic (inl h) = inl h.1
      old c ic (inr h) = inr (
        subst (λ y. In y bs) (sym h.1) ic,
        subst (λ (y : Booking). y.id ≢ b.id) (sym h.1) (λ q. ground arith),
      )

  pub save-NoDoubleBooking :
      NoDoubleBooking rs bs
      → IsApart rs bs b
      → NoDoubleBooking rs (change (λ (c : Booking). c.id == b.id) (λ _. b) bs)
  save-NoDoubleBooking inv apart x y t i j = cases (In-Saved x i) (In-Saved y j)
    where
      cases :
          Saved x
          → Saved y
          → x.id ≢ y.id
          → x.tenant_id ≡ y.tenant_id
          → Occupies x t
          → Occupies y t
          → ¬ Shares rs x.tenant_id x.resource_id y.resource_id
      cases (inr p) (inr q) ne te ox oy = inv x y t p.0 q.0 ne te ox oy
      cases (inl e) q ne te ox oy =
          insert-NoDoubleBooking rs bs b inv apart x y t (inl e) (next q) ne te ox oy
        where
          next : Saved y → In y (b ∷ bs)
          next (inl f) = inl f
          next (inr g) = inr g.0
      cases (inr p) (inl f) ne te ox oy =
          insert-NoDoubleBooking rs bs b inv apart x y t (inr p.0) (inl f) ne te ox oy

-- The row keeps its room and window, is not made active again, and stays settled.
pub record Narrows (c d : Booking) : Type 0 where
  pub id : d.id ≡ c.id
  pub tenant : d.tenant_id ≡ c.tenant_id
  pub room : d.resource_id ≡ c.resource_id
  pub start : d.start_time ≡ c.start_time
  pub end : d.end_time ≡ c.end_time
  pub active : is_released d.status ≡ false → is_released c.status ≡ false
  pub settled : is_terminal c.status ≡ true → is_terminal d.status ≡ true

pub Narrows-refl : (c : Booking) → Narrows c c
Narrows-refl c = record {
  id = refl;
  tenant = refl;
  room = refl;
  start = refl;
  end = refl;
  active = λ h. h;
  settled = λ h. h;
}

-- Each row of the second table narrows a row of the first.
abbrev pub Evolves : List Booking → List Booking → Type 0
Evolves bs bs' = (x : Booking) → In x bs' → (c : Booking) × In c bs × Narrows c x

pub Evolves-eq : (bs bs' : List Booking) → bs' ≡ bs → Evolves bs bs'
Evolves-eq bs bs' e x i = (x, subst (In x) e i, Narrows-refl x)

pub Evolves-save :
    (bs bs' : List Booking) (b d : Booking)
    → In b bs
    → Narrows b d
    → bs' ≡ change (λ (c : Booking). c.id == d.id) (λ _. d) bs
    → Evolves bs bs'
Evolves-save bs bs' b d i n e x j = row (In-Saved [] bs d x (subst (In x) e j))
  where
    row : (x ≡ d) ⊎ (In x bs × (x.id ≢ d.id)) → (c : Booking) × In c bs × Narrows c x
    row (inl q) = (b, i, subst (Narrows b) (sym q) n)
    row (inr q) = (x, q.0, Narrows-refl x)

narrow-pair :
    (rs : List Resource) (a b x y : Booking) (t : ℕ)
    → Narrows a x
    → Narrows b y
    → (a.id ≢ b.id
        → a.tenant_id ≡ b.tenant_id
        → Occupies a t
        → Occupies b t
        → ¬ Shares rs a.tenant_id a.resource_id b.resource_id)
    → x.id ≢ y.id
    → x.tenant_id ≡ y.tenant_id
    → Occupies x t
    → Occupies y t
    → ¬ Shares rs x.tenant_id x.resource_id y.resource_id
narrow-pair rs a b x y t m n h ne te ox oy s =
    h (λ e. ne (m.id ∙ e ∙ sym n.id)) (sym m.tenant ∙ te ∙ n.tenant)
      (m.active ox.0, subst (λ k. k ≤ t) m.start ox.1, subst (λ k. t < k) m.end ox.2)
      (n.active oy.0, subst (λ k. k ≤ t) n.start oy.1, subst (λ k. t < k) n.end oy.2)
      (subst (λ k. Shares rs k a.resource_id b.resource_id) m.tenant
        (subst (λ k. Shares rs x.tenant_id k b.resource_id) m.room
          (subst (λ k. Shares rs x.tenant_id x.resource_id k) n.room s)))

pub Evolves-change :
    (p : Booking → Bool) (f : Booking → Booking) (bs : List Booking)
    → ((c : Booking) → p c ≡ true → Narrows c (f c))
    → Evolves bs (change p f bs)
Evolves-change p f bs keep x i = let r = In-change p f bs i in row r.0 r.1 r.2
  where
    row :
        (c : Booking)
        → In c bs
        → ((p c ≡ true) × (x ≡ f c)) ⊎ ((p c ≡ false) × (x ≡ c))
        → (c' : Booking) × In c' bs × Narrows c' x
    row c ic (inl h) = (c, ic, subst (Narrows c) (sym h.1) (keep c h.0))
    row c ic (inr h) = (c, ic, subst (Narrows c) (sym h.1) (Narrows-refl c))

Narrows-trans : (a b c : Booking) → Narrows a b → Narrows b c → Narrows a c
Narrows-trans a b c m n = record {
  id = n.id ∙ m.id;
  tenant = n.tenant ∙ m.tenant;
  room = n.room ∙ m.room;
  start = n.start ∙ m.start;
  end = n.end ∙ m.end;
  active = λ h. m.active (n.active h);
  settled = λ h. n.settled (m.settled h);
}

pub Evolves-trans : (xs bs cs : List Booking) → Evolves xs bs → Evolves bs cs → Evolves xs cs
Evolves-trans xs bs cs f g x i =
    let (b, ib, n) = g x i in let (a, ia, m) = f b ib in (a, ia, Narrows-trans a b x m n)

-- What narrows every row keeps the invariant.
pub Evolves-NoDoubleBooking :
    (rs : List Resource) (bs bs' : List Booking)
    → Evolves bs bs'
    → NoDoubleBooking rs bs
    → NoDoubleBooking rs bs'
Evolves-NoDoubleBooking rs bs bs' ev inv x y t i j =
    let (a, ia, m) = ev x i in
    let (b, ib, n) = ev y j in narrow-pair rs a b x y t m n (inv a b t ia ib)

pub IsApart-Narrows :
    (rs : List Resource) (bs : List Booking) (c d : Booking)
    → Narrows c d
    → IsApart rs bs c
    → IsApart rs bs d
IsApart-Narrows rs bs c d n apart a t i ne te oa od =
    narrow-pair rs c a d a t n (Narrows-refl a)
      (λ n' t' oc o. apart a t i (λ e. n' (sym e)) (sym t') o oc) (λ e. ne (sym e)) (sym te) od oa

-- A row of the table is apart from the others.
pub NoDoubleBooking-IsApart :
    (rs : List Resource) (bs : List Booking) (b : Booking)
    → NoDoubleBooking rs bs
    → In b bs
    → IsApart rs bs b
NoDoubleBooking-IsApart rs bs b inv ib a t i ne te oa ob =
    inv b a t ib i (λ e. ne (sym e)) (sym te) ob oa
