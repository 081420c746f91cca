-- ===== src/SyncOutbox.antt =====
-- modules/sync-outbox/sync-outbox.service.ts: the queue of calendar pushes.
-- The two adapters are parameters: `push row` is what each of them throws, `none` on success.
pub mod Bounds
pub mod Claims
pub mod Drain
use booking_system.Base.{
  ℕ, suc, ◌+◌, ◌*◌, ◌-◌, ◌^◌, Bool, true, false, not, ◌&&◌, ◌||◌, Option, none, some, List, [], ◌∷◌,
  ◌++◌, Text, codes, if◌then◌else◌, ◌==◌, ltb, leb, take, keep, change, includes, map,
}
use booking_system.Store.Booking.{Booking, SyncStatus, synced}
use booking_system.Store.Outbox.{Event, OutboxStatus, pending, processing, sent, failed, SyncOutbox}

abbrev pub max_attempts : ℕ
max_attempts = 6

abbrev pub drain_batch : ℕ
drain_batch = 50

abbrev pub stale_processing_ms : ℕ
stale_processing_ms = 600000

-- The outbox table and the bookings whose `sync_status` mirrors it.
pub record Queue : Type 0 where
  pub rows : List SyncOutbox
  pub bookings : List Booking
  pub next_id : ℕ

unfoldable pub mark_booking_sync : ℕ → ℕ → SyncStatus → Queue → Queue
mark_booking_sync tenant id status q = record q {
  bookings =
      change (λ (b : Booking). b.id == id && b.tenant_id == tenant)
        (λ (b : Booking). record b { sync_status = status }) q.bookings;
}

abbrev pub new_row : ℕ → Event → ℕ → ℕ → ℕ → SyncOutbox
new_row id event tenant booking now = record {
  id = id;
  tenant_id = tenant;
  booking_id = booking;
  event = event;
  status = pending;
  attempt_count = 0;
  next_attempt_at = now;
  sent_at = none;
  last_error = none;
  updated_at = now;
}

unfoldable pub enqueue : ℕ → Event → ℕ → ℕ → Queue → Queue
enqueue now event tenant booking q = record q {
  rows = new_row q.next_id event tenant booking now ∷ q.rows;
  next_id = suc q.next_id;
}

unfoldable pub retry : ℕ → ℕ → ℕ → Event → Queue → Queue
unfolding mark_booking_sync enqueue
retry now tenant booking event q =
    enqueue now event tenant booking (mark_booking_sync tenant booking SyncStatus.pending q)

-- Due, and pending or left in processing by a worker that died.
abbrev pub claimable_status : OutboxStatus → ℕ → ℕ → Bool
claimable_status pending updated now = true
claimable_status processing updated now = leb (updated + stale_processing_ms) now
claimable_status _ updated now = false

abbrev pub claimable : ℕ → SyncOutbox → Bool
claimable now r = leb r.next_attempt_at now && claimable_status r.status r.updated_at now

unfoldable pub insert_due : SyncOutbox → List SyncOutbox → List SyncOutbox
insert_due r [] = r ∷ []
insert_due r (x ∷ xs) =
    if leb r.next_attempt_at x.next_attempt_at then r ∷ x ∷ xs else x ∷ insert_due r xs

unfoldable pub by_next_attempt : List SyncOutbox → List SyncOutbox
unfolding insert_due
by_next_attempt [] = []
by_next_attempt (r ∷ rs) = insert_due r (by_next_attempt rs)

-- The rows that a tick claims.
unfoldable pub due_rows : ℕ → List SyncOutbox → List SyncOutbox
due_rows now rows = take drain_batch (by_next_attempt (keep (claimable now) rows))

abbrev pub ids_of : List SyncOutbox → List ℕ
ids_of rows = map (λ (r : SyncOutbox). r.id) rows

-- The claim marks its rows, so that no other tick takes them; the update stamps `updated_at`.
unfoldable pub claim_due : ℕ → Queue → List SyncOutbox × Queue
claim_due now q =
    let rows = due_rows now q.rows in
    (
      rows,
      record q {
        rows =
            change (λ (r : SyncOutbox). includes (ids_of rows) r.id)
              (λ (r : SyncOutbox). record r { status = processing; updated_at = now }) q.rows;
      },
    )

-- `errors.join('; ').slice(0, 1024)` of what the adapters threw; empty where none did.
abbrev pub errors_of : Option Text → Option Text → List Text
errors_of none none = []
errors_of (some e) none = (codes "outlook: " ++ e) ∷ []
errors_of none (some e) = (codes "google: " ++ e) ∷ []
errors_of (some e) (some f) = (codes "outlook: " ++ e) ∷ (codes "google: " ++ f) ∷ []

unfoldable pub join_errors : List Text → Text
join_errors [] = []
join_errors (e ∷ []) = e
join_errors (e ∷ f ∷ es) = e ++ (codes "; " ++ join_errors (f ∷ es))

-- 30 s, 2 min, 8 min, 32 min, …
unfoldable pub backoff_ms : ℕ → ℕ
backoff_ms attempt = 30 * 4 ^ (attempt - 1) * 1000

-- `lastError = undefined` leaves the column as it is.
abbrev sent_row : ℕ → SyncOutbox → SyncOutbox
sent_row now r = record r { status = sent; sent_at = some now; updated_at = now }

abbrev failed_row : ℕ → Text → SyncOutbox → SyncOutbox
failed_row now e r = record r {
  attempt_count = r.attempt_count + 1;
  last_error = some (take 1024 e);
  status = failed;
  updated_at = now;
}

abbrev retried_row : ℕ → Text → SyncOutbox → SyncOutbox
retried_row now e r = record r {
  attempt_count = r.attempt_count + 1;
  last_error = some (take 1024 e);
  status = pending;
  next_attempt_at = now + backoff_ms (r.attempt_count + 1);
  updated_at = now;
}

-- The row after one delivery, by the errors of its two pushes.
unfoldable pub delivered : ℕ → List Text → SyncOutbox → SyncOutbox
unfolding join_errors
delivered now [] r = sent_row now r
delivered now (e ∷ es) r =
    if leb max_attempts (r.attempt_count + 1)
    then failed_row now (join_errors (e ∷ es)) r
    else retried_row now (join_errors (e ∷ es)) r

abbrev pub outcome_status : List Text → SyncOutbox → Option SyncStatus
outcome_status [] r = some synced
outcome_status (e ∷ es) r =
    if leb max_attempts (r.attempt_count + 1) then some SyncStatus.failed else none

abbrev pub mark_opt : ℕ → ℕ → Option SyncStatus → Queue → Queue
mark_opt tenant id none q = q
mark_opt tenant id (some s) q = mark_booking_sync tenant id s q

abbrev pub save_row : SyncOutbox → Queue → Queue
save_row r q = record q { rows = change (λ (x : SyncOutbox). x.id == r.id) (λ _. r) q.rows }

module _ (push : SyncOutbox → Option Text × Option Text) where
  unfoldable pub deliver_one : ℕ → SyncOutbox → Queue → Queue
  deliver_one now r q =
      let errors = errors_of (push r).0 (push r).1 in
      save_row (delivered now errors r)
        (mark_opt r.tenant_id r.booking_id (outcome_status errors r) q)

  unfoldable pub deliver_all : ℕ → List SyncOutbox → Queue → Queue
  deliver_all now [] q = q
  deliver_all now (r ∷ rs) q = deliver_all now rs (deliver_one now r q)

  unfoldable pub drain : ℕ → Queue → Queue
  drain now q = let (rows, q') = claim_due now q in deliver_all now rows q'
