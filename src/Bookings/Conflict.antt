-- ===== src/Bookings/Conflict.antt =====
-- bookings.service.ts: which rooms share a space, and the search for a clash.
-- The row locks make each check and write one step of the history.
pub mod Composite
use booking_system.Base.{
  ℕ, zero, suc, Bool, true, false, not, ◌&&◌, Option, none, some, List, [], ◌∷◌, ◌++◌,
  if◌then◌else◌, ◌==◌, ltb, leb, max, includes, any, tally, same_opt, Result, ok, err, throw_if,
  conflict, slot_taken, pods_full,
}
use booking_system.Store.Booking.{Booking, is_released, is_shared}
use booking_system.Store.Resource.{Resource, CompositeMode, parent, child, is_parent, is_child}
use booking_system.Store.Db.{Db}

-- `ids.add(x)`
abbrev add_id : ℕ → List ℕ → List ℕ
add_id x ids = if includes ids x then ids else ids ++ x ∷ []

-- `kids.forEach((k) => ids.add(k.id))` over the rows of the tenant with this parent.
unfoldable pub add_kids : ℕ → ℕ → List Resource → List ℕ → List ℕ
add_kids tenant p [] ids = ids
add_kids tenant p (k ∷ rs) ids =
    add_kids tenant p rs
      (if k.tenant_id == tenant && same_opt k.parent_resource_id p then add_id k.id ids else ids)

abbrev add_parent : CompositeMode → Option ℕ → List ℕ → List ℕ
add_parent child (some p) ids = add_id p ids
add_parent _ _ ids = ids

unfoldable pub related_resource_ids : Db → ℕ → Resource → List ℕ
unfolding add_kids
related_resource_ids db tenant r =
    let ids = add_parent r.composite_mode r.parent_resource_id (r.id ∷ []) in
    if is_parent r.composite_mode then add_kids tenant r.id db.resources ids else ids

-- `tstzrange(a, b, '[)') && tstzrange(c, d, '[)')`; an empty range meets nothing.
abbrev pub overlaps : ℕ → ℕ → ℕ → ℕ → Bool
overlaps a b c d = ltb a b && ltb c d && ltb a d && ltb c b

-- The rows that the query of `assertNoConflict` selects.
abbrev pub clashes : ℕ → List ℕ → ℕ → ℕ → Option ℕ → Booking → Bool
clashes tenant ids start end exclude b =
    b.tenant_id == tenant
    && includes ids b.resource_id
    && not (is_released b.status)
    && overlaps b.start_time b.end_time start end
    && not (same_opt exclude b.id)

unfoldable pub is_pod : Resource → Bool
is_pod r =
    is_shared r.booking_mode && not (is_parent r.composite_mode) && not (is_child r.composite_mode)

unfoldable pub pod_capacity : Resource → ℕ
pod_capacity r = max 1 r.shared_capacity

unfoldable pub assert_no_conflict :
    List Booking → ℕ → List ℕ → ℕ → ℕ → Option ℕ → Resource → Result (Unit {0})
assert_no_conflict bookings tenant ids start end exclude r =
    if is_pod r
    then throw_if (leb (pod_capacity r) (tally (clashes tenant ids start end exclude) bookings))
        (conflict pods_full)
    else throw_if (any (clashes tenant ids start end exclude) bookings) (conflict slot_taken)
