-- ===== src/Approvals/Decide.antt =====
-- approvals.service.ts: `decide` and the write of one decision.
pub mod Outcome
pub mod Liveness
use booking_system.Base.{
  ℕ, Bool, true, false, not, ◌&&◌, ◌||◌, Option, none, some, List, [], ◌∷◌, ◌++◌, Text, codes, trim,
  if◌then◌else◌, ◌==◌, leb, is_empty, is_some, find, keep, all, change, get_elem?, Result, ok, err,
  ◌>>=◌, ◌>>◌, throw_if, or_throw, bad_request, bad_decision, reason_required, not_pending,
  forbidden, not_found,
}
use booking_system.Store.Booking.{
  Booking, BookingStatus, confirmed, pending_approval, cancelled, is_confirmed, is_pending_approval,
}
use booking_system.Store.Approval.{
  ApprovalRule, ApprovalStep, Approval, StepStatus, Decision, approve, reject, is_done,
}
use booking_system.Store.Outbox.{Event, booking_approved, booking_rejected}
use booking_system.Store.Db.{Db, find_booking, send, notify}
use booking_system.Approvals.Eligibility.{AuthUser, can_decide_legacy, first_actionable_index}

-- DecideInput: a status that is neither word is `none`; an absent reason is empty.
pub record DecideInput : Type 0 where
  pub status : Option Decision
  pub reason : Text

unfoldable insert_step : ApprovalStep → List ApprovalStep → List ApprovalStep
insert_step s [] = s ∷ []
insert_step s (x ∷ xs) = if leb s.step_index x.step_index then s ∷ x ∷ xs else x ∷ insert_step s xs

unfoldable by_index : List ApprovalStep → List ApprovalStep
unfolding insert_step
by_index [] = []
by_index (s ∷ ss) = insert_step s (by_index ss)

-- The chain of a booking in step order; the lock makes the decision one step of the history.
unfoldable pub lock_chain : Db → ℕ → ℕ → List ApprovalStep
unfolding by_index
lock_chain db tenant booking =
    by_index
      (keep (λ (s : ApprovalStep). s.tenant_id == tenant && s.booking_id == booking) db.steps)

-- `update({ id, tenantId }, …)`
abbrev pub update_booking : ℕ → ℕ → (Booking → Booking) → Db → Db
update_booking tenant id f db = record db {
  bookings = change (λ (b : Booking). b.id == id && b.tenant_id == tenant) f db.bookings;
}

abbrev pub step_status : Decision → StepStatus
step_status approve = StepStatus.approved
step_status reject = StepStatus.rejected

abbrev pub decided_step : ApprovalStep → Decision → Text → Option ℕ → ℕ → ApprovalStep
decided_step s d reason actor now = record s {
  status = step_status d;
  decided_by = actor;
  decision_at = some now;
  reason = reason;
}

abbrev pub save_step : ApprovalStep → Db → Db
save_step s db = record db { steps = change (λ (x : ApprovalStep). x.id == s.id) (λ _. s) db.steps }

-- `Rejected at ${step.levelName}: ${reason}`
abbrev rejection_note : Text → Text → Text
rejection_note level reason = codes "Rejected at " ++ (level ++ (codes ": " ++ reason))

abbrev pub rejected_booking : Text → Booking → Booking
rejected_booking notes b = record b { status = cancelled; exception_notes = notes }

abbrev pub confirmed_booking : Booking → Booking
confirmed_booking b = record b { status = confirmed }

-- Every other step of the locked snapshot is approved or skipped.
unfoldable pub others_done : List ApprovalStep → ApprovalStep → Bool
others_done steps s = all (λ (x : ApprovalStep). x.id == s.id || is_done x.status) steps

-- What one decision did to the booking.
pub data Progress : Type 0 where
  confirms rejects waits : Progress

unfoldable pub commit_step_decision :
    Db → ℕ → ℕ → List ApprovalStep → ApprovalStep → Decision → Text → Option ℕ → ℕ → Db × Progress
commit_step_decision db tenant id steps s reject reason actor now = (
  update_booking tenant id (rejected_booking (rejection_note s.level_name reason))
      (save_step (decided_step s reject reason actor now) db),
  rejects,
)
commit_step_decision db tenant id steps s approve reason actor now =
    let saved = save_step (decided_step s approve reason actor now) db in
    if others_done steps s
    then (update_booking tenant id confirmed_booking saved, confirms)
    else (saved, waits)

unfoldable pub record_approval_audit : Db → ℕ → ℕ → Option ℕ → Decision → Text → Db
record_approval_audit db tenant id actor d reason = record db {
  approvals =
      record {
        tenant_id = tenant;
        booking_id = id;
        approver_id = actor;
        decision = d;
        reason = reason;
      }
      ∷ db.approvals;
}

-- `pending` is whether the locked row still waits for approval.
abbrev legacy_write : Decision → Bool → Text → Booking → Booking
legacy_write approve pending reason b = if pending then confirmed_booking b else b
legacy_write reject pending reason b = rejected_booking (codes "Rejected: " ++ reason) b

-- `update({ id: b.id }, …)`
abbrev update_by_id : ℕ → (Booking → Booking) → Db → Db
update_by_id id f db = record db { bookings = change (λ (b : Booking). b.id == id) f db.bookings }

unfoldable pub decide_legacy : Db → AuthUser → ℕ → Decision → Text → Result Db
decide_legacy db u id d reason = do
  b ← or_throw (find_booking db u.tenant_id id) not_found
  throw_if (not (can_decide_legacy u b)) forbidden
  throw_if (not (is_pending_approval b.status) && not (is_confirmed b.status))
      (bad_request not_pending)
  ok (update_by_id b.id (legacy_write d (is_pending_approval b.status) reason) db)

abbrev rule_of : Db → Option ℕ → Option ApprovalRule
rule_of db none = none
rule_of db (some r) = find (λ (x : ApprovalRule). x.id == r) db.rules

abbrev pub chain_rule : Db → List ApprovalStep → Option ApprovalRule
chain_rule db [] = none
chain_rule db (s ∷ ss) = rule_of db s.rule_id

-- `notifyDecision`: the mail goes out if the booking is there.
unfoldable pub notify_decision : Db → ℕ → ℕ → Event → Db
notify_decision db tenant id e =
    if is_some (find_booking db tenant id) then send (notify e id) db else db

abbrev progress_event : Progress → Option Event
progress_event confirms = some booking_approved
progress_event rejects = some booking_rejected
progress_event waits = none

abbrev notify_opt : Db → ℕ → ℕ → Option Event → Db
notify_opt db tenant id none = db
notify_opt db tenant id (some e) = notify_decision db tenant id e

abbrev decision_event : Decision → Event
decision_event approve = booking_approved
decision_event reject = booking_rejected

-- The step that the user's decision is for.
unfoldable pub chosen_step : Db → List ApprovalStep → AuthUser → Result ApprovalStep
chosen_step db steps u = do
  i ← or_throw (first_actionable_index steps (chain_rule db steps) u) forbidden
  or_throw (get_elem? steps i) forbidden

unfoldable pub decide_chain :
    Db → ℕ → AuthUser → ℕ → List ApprovalStep → Decision → Text → Result Db
decide_chain db now u id steps d reason = chosen_step db steps u >>= λ s.
    let r = commit_step_decision db u.tenant_id id steps s d reason (some u.id) now in
    ok (
      notify_opt (record_approval_audit r.0 u.tenant_id id (some u.id) d reason) u.tenant_id id
        (progress_event r.1))

abbrev pub is_reject : Decision → Bool
is_reject reject = true
is_reject approve = false

unfoldable pub decide : Db → ℕ → AuthUser → ℕ → DecideInput → Result Db
decide db now u id input = or_throw input.status (bad_request bad_decision) >>= λ d.
    throw_if (is_reject d && is_empty (trim input.reason)) (bad_request reason_required)
    >> (if is_empty (lock_chain db u.tenant_id id)
        then (decide_legacy db u id d input.reason >>= λ db'. ok (
            notify_decision (record_approval_audit db' u.tenant_id id (some u.id) d input.reason)
              u.tenant_id id (decision_event d)))
        else decide_chain db now u id (lock_chain db u.tenant_id id) d input.reason)
