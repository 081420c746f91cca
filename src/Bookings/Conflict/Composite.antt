-- ===== src/Bookings/Conflict/Composite.antt =====
-- The space that rooms share, stated without the code, and what `assertNoConflict` guarantees.
use booking_system.Base.{
  ℕ, ◌≤◌, ◌<◌, ◌≡◌, subst, inl, inr, true, false, ◌&&◌, Option, none, some, List, [], ◌∷◌, ◌==◌,
  Bool-cases, same_opt, includes, any, ok, arith, In, any-false, includes-append_left,
  includes-append_last,
}
use booking_system.Store.Booking.{Booking, is_released}
use booking_system.Store.Resource.{Resource, CompositeMode, child, parent, is_parent}
use booking_system.Store.Db.{Db}
use booking_system.Bookings.Conflict.{
  add_id, add_kids, add_parent, related_resource_ids, clashes, is_pod, assert_no_conflict,
}

-- Two room ids of a tenant stand for space in common: one exclusive room, or a part and its whole.
pub data Shares (rs : List Resource) (tenant x y : ℕ) : Type 0 where
  same_room :
      (r : Resource)
      → In r rs
      → r.tenant_id ≡ tenant
      → r.id ≡ x
      → r.id ≡ y
      → is_pod r ≡ false
      → Shares rs tenant x y
  part_of :
      (r : Resource)
      → In r rs
      → r.tenant_id ≡ tenant
      → r.id ≡ x
      → r.parent_resource_id ≡ some y
      → Shares rs tenant x y
  has_part :
      (r : Resource)
      → In r rs
      → r.tenant_id ≡ tenant
      → r.id ≡ y
      → r.parent_resource_id ≡ some x
      → Shares rs tenant x y

pub Shares-sym : {rs : List Resource} {t x y : ℕ} → Shares rs t x y → Shares rs t y x
Shares-sym (same_room r i e p q n) = same_room r i e q p n
Shares-sym (part_of r i e p q) = has_part r i e p q
Shares-sym (has_part r i e p q) = part_of r i e p q

-- Ids are unique, only a child has a parent, and what is a parent says so.
pub record IsComposite (rs : List Resource) : Type 0 where
  pub unique : (r s : Resource) → In r rs → In s rs → r.id ≡ s.id → r ≡ s
  pub child_mode :
      (r : Resource) (p : ℕ) → In r rs → r.parent_resource_id ≡ some p → r.composite_mode ≡ child
  pub parent_mode :
      (r s : Resource)
      → In r rs
      → In s rs
      → r.tenant_id ≡ s.tenant_id
      → r.parent_resource_id ≡ some s.id
      → s.composite_mode ≡ parent

-- The booking holds its room at the instant.
abbrev pub Occupies : Booking → ℕ → Type 0
Occupies b t = (is_released b.status ≡ false) × (b.start_time ≤ t) × (t < b.end_time)

includes-add_id :
    (x : ℕ) (ids : List ℕ) (a : ℕ) → includes ids a ≡ true → includes (add_id x ids) a ≡ true
includes-add_id x ids a h = elim (Bool-cases (includes ids x)) [
  | inl e ↦ rw e h
  | inr e ↦ rw e (includes-append_left ids (x ∷ []) a h)
]

includes-add_id_self : (x : ℕ) (ids : List ℕ) → includes (add_id x ids) x ≡ true
includes-add_id_self x ids = elim (Bool-cases (includes ids x)) [
  | inl e ↦ rw e e
  | inr e ↦ rw e (includes-append_last ids x)
]

-- The kids are added to what is there.
add_kids-keeps :
    (t p : ℕ) (rs : List Resource) (ids : List ℕ) (a : ℕ)
    → includes ids a ≡ true
    → includes (add_kids t p rs ids) a ≡ true
unfolding add_kids
add_kids-keeps t p [] ids a h = h
add_kids-keeps t p (k ∷ rs) ids a h =
    elim (Bool-cases (k.tenant_id == t && same_opt k.parent_resource_id p)) [
      | inl e ↦ rw e (add_kids-keeps t p rs (add_id k.id ids) a (includes-add_id k.id ids a h))
      | inr e ↦ rw e (add_kids-keeps t p rs ids a h)
    ]

add_kids-kid :
    (t p : ℕ) (rs : List Resource) (ids : List ℕ) (r : Resource)
    → In r rs
    → (r.tenant_id == t && same_opt r.parent_resource_id p) ≡ true
    → includes (add_kids t p rs ids) r.id ≡ true
unfolding add_kids
add_kids-kid t p [] ids r i h = elim i [ ]
add_kids-kid t p (k ∷ rs) ids r (inl e) h =
    let hk : (k.tenant_id == t && same_opt k.parent_resource_id p) ≡ true =
      subst (λ (s : Resource). (s.tenant_id == t && same_opt s.parent_resource_id p) ≡ true) e h in
    rw (e, hk) (add_kids-keeps t p rs (add_id k.id ids) k.id (includes-add_id_self k.id ids))
add_kids-kid t p (k ∷ rs) ids r (inr i) h = add_kids-kid t p rs _ r i h

add_parent-keeps :
    (m : CompositeMode) (o : Option ℕ) (ids : List ℕ) (a : ℕ)
    → includes ids a ≡ true
    → includes (add_parent m o ids) a ≡ true
add_parent-keeps child (some p) ids a h = includes-add_id p ids a h
add_parent-keeps child none ids a h = h
add_parent-keeps _ o ids a h = h

module _ (db : Db) (wf : IsComposite db.resources) (r : Resource) (found : In r db.resources) where
  base : List ℕ
  base = add_parent r.composite_mode r.parent_resource_id (r.id ∷ [])

  related_keeps :
      (a : ℕ) → includes base a ≡ true → includes (related_resource_ids db r.tenant_id r) a ≡ true
  unfolding related_resource_ids base
  related_keeps a h = elim (Bool-cases (is_parent r.composite_mode)) [
    | inl e ↦ rw e (add_kids-keeps r.tenant_id r.id db.resources base a h)
    | inr e ↦ rw e h
  ]

  base_parent : (y : ℕ) → r.parent_resource_id ≡ some y → includes base y ≡ true
  unfolding base
  base_parent y e = rw (wf.child_mode r y found e, e) (includes-add_id_self y (r.id ∷ []))

  related_kid :
      (k : Resource)
      → In k db.resources
      → k.tenant_id ≡ r.tenant_id
      → k.parent_resource_id ≡ some r.id
      → includes (related_resource_ids db r.tenant_id r) k.id ≡ true
  unfolding related_resource_ids base
  related_kid k i t e =
      rw (wf.parent_mode k r i found t e)
        (add_kids-kid r.tenant_id r.id db.resources _ k i (rw (t, e) (ground arith)))

  -- The locked ids cover every room that shares the space.
  pub related-covers :
      (y : ℕ)
      → Shares db.resources r.tenant_id r.id y
      → includes (related_resource_ids db r.tenant_id r) y ≡ true
  unfolding base
  related-covers y (same_room s i t p q n) =
      related_keeps y
        (add_parent-keeps r.composite_mode r.parent_resource_id (r.id ∷ []) y (ground arith))
  related-covers y (part_of s i t p q) = related_keeps y (
      base_parent y
        (subst (λ (u : Resource). u.parent_resource_id ≡ some y) (wf.unique s r i found p) q))
  related-covers y (has_part s i t p q) =
      subst (λ a. includes (related_resource_ids db r.tenant_id r) a ≡ true) p (related_kid s i t q)

  -- A room that shares space is no pod.
  pub not_pod : (y : ℕ) → Shares db.resources r.tenant_id r.id y → is_pod r ≡ false
  unfolding is_pod
  not_pod y (same_room s i t p q n) =
      subst (λ (u : Resource). is_pod u ≡ false) (wf.unique s r i found p) n
  not_pod y (part_of s i t p q) =
      let m =
        wf.child_mode r y found
          (subst (λ (u : Resource). u.parent_resource_id ≡ some y) (wf.unique s r i found p) q) in
      ground arith
  not_pod y (has_part s i t p q) = let m = wf.parent_mode s r i found t q in ground arith

  -- Where no conflict is reported, no other booking holds shared space during the window.
  pub admitted :
      (bs : List Booking) (start end : ℕ) (ex : Option ℕ)
      → assert_no_conflict bs r.tenant_id (related_resource_ids db r.tenant_id r) start end ex r
        ≡ ok tt
      → (a : Booking) (t : ℕ) → In a bs
      → a.tenant_id ≡ r.tenant_id
      → same_opt ex a.id ≡ false
      → Occupies a t
      → start ≤ t
      → t < end
      → ¬ Shares db.resources r.tenant_id r.id a.resource_id
  unfolding assert_no_conflict
  admitted bs start end ex h a t i same ne occ lo hi sh =
      let n = not_pod a.resource_id sh in
      let c = related-covers a.resource_id sh in
      let free : any (clashes r.tenant_id (related_resource_ids db r.tenant_id r) start end ex) bs
          ≡ false =
        ground arith in
      let none_here =
        any-false (clashes r.tenant_id (related_resource_ids db r.tenant_id r) start end ex) bs free
          i in
      ground arith
