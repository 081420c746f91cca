-- ===== src/Approvals/Sweeps.antt =====
-- approvals.service.ts: the cron sweeps over overdue steps and stale requests.
pub mod Races
use booking_system.Base.{
  ℕ, suc, Bool, true, false, not, ◌&&◌, Option, none, some, List, [], ◌∷◌, Text, codes,
  if◌then◌else◌, ◌==◌, ltb, leb, find, keep, any, take, change,
}
use booking_system.Store.Booking.{Booking, BookingStatus, cancelled, is_pending_approval}
use booking_system.Store.Approval.{ApprovalStep, StepStatus, approve, is_pending}
use booking_system.Store.Outbox.{booking_approved, booking_rejected}
use booking_system.Store.Db.{Db}
use booking_system.Bookings.AutoRelease.{by_start}
use booking_system.Approvals.Decide.{
  lock_chain, commit_step_decision, record_approval_audit, notify_decision, Progress, confirms,
  rejects, waits, rejected_booking,
}

abbrev auto_reason : Text
auto_reason = codes "Auto-approved by system policy"

-- `dueAt` is set and not after `now`.
abbrev pub is_due : ℕ → Option ℕ → Bool
is_due now none = false
is_due now (some t) = leb t now

abbrev notify_confirmed : Progress → Db → ℕ → ℕ → Db
notify_confirmed confirms db tenant id = notify_decision db tenant id booking_approved
notify_confirmed _ db tenant id = db

abbrev approve_due : Db → ℕ → ℕ → ℕ → List ApprovalStep → ApprovalStep → Db
approve_due db now tenant id steps s =
    let r = commit_step_decision db tenant id steps s approve auto_reason none now in
    notify_confirmed r.1 (record_approval_audit r.0 tenant id none approve auto_reason) tenant id

-- The step is looked up again under the lock; `false` where it is decided or no longer overdue.
unfoldable pub auto_approve_step : Db → ℕ → ℕ → ℕ → ℕ → Db × Bool
auto_approve_step db now tenant id step_id =
    let steps = lock_chain db tenant id in
    elim (find (λ (s : ApprovalStep). s.id == step_id) steps) [
      | none ↦ (db, false)
      | some s ↦
          if is_pending s.status && is_due now s.due_at
          then (approve_due db now tenant id steps s, true)
          else (db, false)
    ]

-- The loop over the due rows, as they were read before the loop.
unfoldable pub approve_all : ℕ → List ApprovalStep → Db → ℕ → Db × ℕ
approve_all now [] db n = (db, n)
approve_all now (s ∷ due) db n =
    approve_all now due (auto_approve_step db now s.tenant_id s.booking_id s.id).0
      (if (auto_approve_step db now s.tenant_id s.booking_id s.id).1 then suc n else n)

unfoldable pub run_due_auto_approvals : Db → ℕ → Db × ℕ
run_due_auto_approvals db now =
    approve_all now
      (keep (λ (s : ApprovalStep). is_pending s.status && is_due now s.due_at) db.steps) db 0

abbrev stale_note : Text
stale_note = codes "Auto-rejected: approver did not act before the meeting start time"

-- The conditional update: the row still waits for approval.
abbrev pub still_pending : ℕ → ℕ → Booking → Bool
still_pending tenant id b = b.id == id && b.tenant_id == tenant && is_pending_approval b.status

abbrev pub open_step : ℕ → ℕ → ApprovalStep → Bool
open_step tenant id s = s.tenant_id == tenant && s.booking_id == id && is_pending s.status

abbrev closed_step : ℕ → ApprovalStep → ApprovalStep
closed_step now s = record s {
  status = StepStatus.rejected;
  reason = stale_note;
  decision_at = some now;
}

unfoldable pub auto_reject_stale : Db → ℕ → ℕ → ℕ → Db × Bool
auto_reject_stale db now tenant id =
    if any (still_pending tenant id) db.bookings
    then (
      notify_decision
          (record db {
            bookings = change (still_pending tenant id) (rejected_booking stale_note) db.bookings;
            steps = change (open_step tenant id) (closed_step now) db.steps;
          })
          tenant id booking_rejected,
      true,
    )
    else (db, false)

unfoldable pub reject_all : ℕ → List Booking → Db → ℕ → Db × ℕ
reject_all now [] db n = (db, n)
reject_all now (b ∷ stale) db n =
    reject_all now stale (auto_reject_stale db now b.tenant_id b.id).0
      (if (auto_reject_stale db now b.tenant_id b.id).1 then suc n else n)

-- The 1000 stale rows of the earliest start.
unfoldable pub sweep_stale_approvals : Db → ℕ → Db × ℕ
sweep_stale_approvals db now =
    reject_all now
      (take 1000 (
        by_start (
          keep (λ (b : Booking). is_pending_approval b.status && ltb b.start_time now)
            db.bookings)))
      db 0
