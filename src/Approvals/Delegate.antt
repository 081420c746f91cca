-- ===== src/Approvals/Delegate.antt =====
-- approvals.service.ts: `delegate`. PermissionsService.hasPermission for approval.decide is a
-- parameter of the tenant and the role.
pub mod Authority
use booking_system.Base.{
  ℕ, Bool, true, false, not, ◌&&◌, ◌||◌, Option, none, some, List, [], ◌∷◌, ◌++◌, Text, codes,
  if◌then◌else◌, ◌==◌, includes, is_empty, find, change, Result, ok, err, ◌>>=◌, ◌>>◌, throw_if,
  or_throw, bad_request, no_delegate, delegate_inactive, delegate_ineligible, already_decided,
  not_pending, forbidden, not_found,
}
use booking_system.Common.Roles.{is_admin}
use booking_system.Store.Booking.{Booking, is_pending_approval}
use booking_system.Store.Tenant.{User}
use booking_system.Store.Approval.{ApprovalStep, is_pending}
use booking_system.Store.Db.{Db, find_booking, find_user}
use booking_system.Approvals.Eligibility.{AuthUser, can_decide_step, can_decide_legacy}
use booking_system.Approvals.Decide.{lock_chain, save_step, update_booking}

-- `existing ? `${existing} · ${note}` : note`
abbrev join_note : Text → Text → Text
join_note [] note = note
join_note (c ∷ s) note = (c ∷ s) ++ (codes " · " ++ note)

-- `approverIds.includes(to) ? approverIds : [...approverIds, to]`
abbrev pub with_approver : List ℕ → ℕ → List ℕ
with_approver ids to = if includes ids to then ids else ids ++ to ∷ []

abbrev pub delegated_step : ApprovalStep → ℕ → ℕ → Text → ℕ → ApprovalStep
delegated_step s to from note now = record s {
  delegated_to = some to;
  delegated_by = some from;
  delegated_at = some now;
  approver_ids = with_approver s.approver_ids to;
  reason = join_note s.reason note;
}

abbrev delegated_booking : ℕ → Text → Booking → Booking
delegated_booking to notes b = record b { delegated_to = some to; exception_notes = notes }

-- `note` is the text `Delegated ${user.id} → ${toUserId}${reason ? ` (${reason})` : ''}`.
module _ (has_permission : ℕ → Text → Bool) where
  unfoldable pub assert_eligible_delegate : Db → ℕ → ℕ → Result (Unit {0})
  assert_eligible_delegate db tenant to =
      or_throw (find_user db tenant to) (bad_request delegate_inactive) >>= λ (t : User).
      throw_if (not t.is_active) (bad_request delegate_inactive)
      >> throw_if (not (has_permission tenant t.role)) (bad_request delegate_ineligible)

  unfoldable pub delegate_step : Db → ℕ → AuthUser → ApprovalStep → ℕ → Text → Result Db
  delegate_step db now u s to note = do
    throw_if (not (can_decide_step s u) && not (is_admin u.role)) forbidden
    ok (save_step (delegated_step s to u.id note now) db)

  unfoldable pub delegate_legacy : Db → AuthUser → ℕ → ℕ → Text → Result Db
  delegate_legacy db u id to note = do
    b ← or_throw (find_booking db u.tenant_id id) not_found
    throw_if (not (is_pending_approval b.status)) (bad_request not_pending)
    throw_if (not (can_decide_legacy u b)) forbidden
    ok (update_booking u.tenant_id id (delegated_booking to (join_note b.exception_notes note)) db)

  -- The first pending step of the chain, if there is one; else the booking itself.
  unfoldable pub delegate_found :
      Db → ℕ → AuthUser → ℕ → List ApprovalStep → Option ApprovalStep → ℕ → Text → Result Db
  delegate_found db now u id steps (some s) to note = delegate_step db now u s to note
  delegate_found db now u id steps none to note = do
    throw_if (not (is_empty steps)) (bad_request already_decided)
    delegate_legacy db u id to note

  unfoldable pub delegate : Db → ℕ → AuthUser → ℕ → ℕ → Text → Result Db
  delegate db now u id to note = do
    throw_if (to == 0) (bad_request no_delegate)
    assert_eligible_delegate db u.tenant_id to
    delegate_found db now u id (lock_chain db u.tenant_id id)
        (find (λ (s : ApprovalStep). is_pending s.status) (lock_chain db u.tenant_id id)) to note
