-- ===== src/Bookings/NoOverlap/Checked.antt =====
-- The conflict check makes a booking apart from every other row.
use booking_system.Base.{ℕ, ◌≡◌, sym, subst, ◌∙◌, ◌≢◌, false, Option, ok, In, same_opt}
use booking_system.Store.Booking.{Booking}
use booking_system.Store.Resource.{Resource}
use booking_system.Store.Db.{Db}
use booking_system.Bookings.Conflict.{related_resource_ids, assert_no_conflict}
use booking_system.Bookings.Conflict.Composite.{Shares, IsComposite, admitted}
use booking_system.Bookings.NoOverlap.Writes.{IsApart}

module _ (db : Db) (wf : IsComposite db.resources) (r : Resource) (found : In r db.resources) where
  pub checked-IsApart :
      (tenant : ℕ) (b : Booking) (ex : Option ℕ)
      → r.tenant_id ≡ tenant
      → b.tenant_id ≡ tenant
      → b.resource_id ≡ r.id
      → ((a : Booking) → a.id ≢ b.id → same_opt ex a.id ≡ false)
      → assert_no_conflict db.bookings tenant
          (related_resource_ids db tenant r)
          b.start_time
          b.end_time
          ex
          r
        ≡ ok tt
      → IsApart db.resources db.bookings b
  checked-IsApart tenant b ex te be re other h a t i ne ta oa ob s =
      admitted db wf r found db.bookings b.start_time b.end_time ex
        (subst
          (λ k.
            assert_no_conflict db.bookings k (related_resource_ids db k r) b.start_time b.end_time
              ex r
            ≡ ok tt)
          (sym te) h)
        a t i (ta ∙ be ∙ sym te) (other a ne) oa ob.1 ob.2
        (subst (λ x. Shares db.resources r.tenant_id x a.resource_id) re
          (subst (λ k. Shares db.resources k b.resource_id a.resource_id) (be ∙ sym te) s))
