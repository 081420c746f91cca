-- ===== src/Bookings/AutoRelease.antt =====
-- auto-release.service.ts: the sweep that frees bookings nobody checked in to.
pub mod Sweep
pub mod Tick
use booking_system.Base.{
  ℕ, suc, ◌+◌, ◌*◌, Bool, true, false, not, ◌&&◌, Option, none, some, List, [], ◌∷◌, Text, codes,
  if◌then◌else◌, ◌==◌, ltb, or_else, or_opt, keep, any, take, change, is_some, is_empty,
}
use booking_system.Common.Tz.{minute_ms}
use booking_system.Store.Booking.{Booking, BookingStatus, no_show, is_confirmed}
use booking_system.Store.Resource.{Resource}
use booking_system.Store.Tenant.{Customization}
use booking_system.Store.Outbox.{booking_auto_released}
use booking_system.Store.Db.{Db, find_resource, send, notify}

-- The process environment: AUTO_RELEASE_ENABLED, and AUTO_RELEASE_GRACE_MINUTES as parsed, at least 1.
pub record Env : Type 0 where
  pub enabled : Bool
  pub grace_minutes : ℕ

abbrev min_grace_minutes : ℕ
min_grace_minutes = 1

-- Absent or not positive falls through.
unfoldable pub positive_int : Option ℕ → Option ℕ
positive_int none = none
positive_int (some n) = if ltb 0 n then some n else none

abbrev resource_grace : Option Resource → Option ℕ
resource_grace none = none
resource_grace (some r) = r.rule_overrides.grace_minutes

-- Per-resource override, then the tenant's default, then the environment.
unfoldable pub resolve_grace : Env → Db → Booking → ℕ
unfolding positive_int
resolve_grace env db b =
    or_else
      (or_opt (positive_int (resource_grace (find_resource db b.tenant_id b.resource_id)))
        (positive_int (db.customization b.tenant_id).auto_release_grace_minutes))
      env.grace_minutes

unfoldable pub release_enabled : Env → Db → Booking → Bool
release_enabled env db b = or_else (db.customization b.tenant_id).auto_release_enabled env.enabled

abbrev pub holds : Booking → Bool
holds b = is_confirmed b.status && not (is_some b.checked_in_at)

-- The candidates of a tick, oldest start first. `startTime < now - 1 min`.
unfoldable pub is_candidate : ℕ → Booking → Bool
is_candidate now b = holds b && ltb (b.start_time + min_grace_minutes * minute_ms) now

unfoldable pub insert_start : Booking → List Booking → List Booking
insert_start b [] = b ∷ []
insert_start b (c ∷ cs) =
    if ltb c.start_time b.start_time then c ∷ insert_start b cs else b ∷ c ∷ cs

unfoldable pub by_start : List Booking → List Booking
unfolding insert_start
by_start [] = []
by_start (b ∷ bs) = insert_start b (by_start bs)

unfoldable pub candidates : ℕ → List Booking → List Booking
unfolding by_start is_candidate
candidates now bs = take 1000 (by_start (keep (is_candidate now) bs))

-- `b.exceptionNotes || 'auto-released: …'`
abbrev pub release_notes : Text → Text
release_notes [] = codes "auto-released: no check-in within grace period"
release_notes (c ∷ s) = c ∷ s

abbrev pub released_booking : Text → Booking → Booking
released_booking notes b = record b { status = no_show; exception_notes = notes }

-- The conditional update: the row of this id, if it is still confirmed and not checked in.
abbrev pub still_held : ℕ → Booking → Bool
still_held id b = b.id == id && is_confirmed b.status && not (is_some b.checked_in_at)

unfoldable pub release : Db → Booking → Db × Bool
release db b =
    let db' = record db {
      bookings =
          change (still_held b.id) (released_booking (release_notes b.exception_notes)) db.bookings;
    } in
    if any (still_held b.id) db.bookings
    then (send (notify booking_auto_released b.id) db', true)
    else (db, false)

unfoldable pub overdue : Env → Db → ℕ → Booking → Bool
unfolding resolve_grace
overdue env db now b = not (ltb now (b.start_time + resolve_grace env db b * minute_ms))

-- The body of the loop for one candidate, as it was read before the loop.
unfoldable pub visit : Env → ℕ → Db → Booking → Db × Bool
visit env now db b =
    if release_enabled env db b && overdue env db now b then release db b else (db, false)

-- The loop over the candidates, with the count of the released.
unfoldable pub sweep : Env → ℕ → List Booking → Db → ℕ → Db × ℕ
sweep env now [] db n = (db, n)
sweep env now (b ∷ bs) db n =
    sweep env now bs (visit env now db b).0 (if (visit env now db b).1 then suc n else n)

unfoldable pub tick : Env → Db → ℕ → Db × ℕ
tick env db now = sweep env now (candidates now db.bookings) db 0
