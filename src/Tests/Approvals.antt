-- ===== src/Tests/Approvals.antt =====
-- Approval chains at concrete inputs.
use booking_system.Base.{
  All, if◌then◌else◌, In, inl, inr, ℕ, ◌+◌, ◌≡◌, refl, ◌⊎◌, Bool, true, false, ◌&&◌, ◌||◌, none,
  some, [], ◌∷◌, Text, codes, ok, ◌==◌, change, get_elem?, any, find, is_empty,
}
use booking_system.Common.Roles.{is_admin}
use booking_system.Store.Booking.{Booking, cancelled, pending_approval}
use booking_system.Store.Tenant.{User}
use booking_system.Store.Approval.{ApprovalStep, StepStatus, approve, is_pending}
use booking_system.Store.Db.{Db}
use booking_system.Approvals.Grade.{grade_at_least}
use booking_system.Approvals.Eligibility.{
  AuthUser, can_decide_step, first_actionable_index, first_from, actionable, deps_done, deps_of,
}
use booking_system.Approvals.Eligibility.Progress.{
  CanAct, DepsDone, Choice, IsFirst, first_actionable_index-Choice,
}
use booking_system.Approvals.Decide.{
  lock_chain, chain_rule, confirmed_booking, decided_step, decide, decide_chain, others_done,
  chosen_step, save_step,
}
use booking_system.Approvals.Decide.Outcome.{
  decide-revives, ChainDone, decide-confirms, decide-authorised,
}
use booking_system.Approvals.Decide.Liveness.{decide-eq-ok}
use booking_system.Approvals.Delegate.{
  delegated_step, delegate, assert_eligible_delegate, delegate_found, delegate_step,
}
use booking_system.Approvals.Delegate.Authority.{
  IsDelegate, delegated_step-can_decide, delegate-authorised,
}
use booking_system.Approvals.Sweeps.{still_pending, open_step, auto_reject_stale, reject_all}
use booking_system.Approvals.Sweeps.Races.{
  RejectsPending, reject_all-Outcome, auto_reject_stale-settles,
}
use booking_system.Tests.Data.{meeting, office, ten}

abbrev manager : ApprovalStep
manager = record {
  id = 40;
  tenant_id = 9;
  booking_id = 100;
  rule_id = none;
  step_index = 0;
  level_name = codes "Manager";
  approver_ids = 11 ∷ [];
  approver_role = [];
  min_grade = [];
  status = StepStatus.approved;
  decided_by = some 11;
  decision_at = some 5;
  reason = [];
  due_at = none;
  delegated_to = none;
  delegated_by = none;
  delegated_at = none;
}

abbrev head : ApprovalStep
head = record manager {
  id = 41;
  step_index = 1;
  level_name = codes "Head";
  approver_ids = 12 ∷ [];
  status = StepStatus.pending;
  decided_by = none;
  decision_at = none;
}

abbrev deputy : User
deputy = record {
  id = 13;
  tenant_id = 9;
  role = codes "Secretary";
  is_active = true;
  grade = codes "SO";
  manager_id = none;
  departments = [];
}

-- The meeting waits for its second approver.
abbrev waiting : Db
waiting = record office {
  bookings = record meeting { status = pending_approval } ∷ [];
  users = deputy ∷ [];
  steps = head ∷ manager ∷ [];
}

abbrev head_user : AuthUser
head_user = record { id = 12; tenant_id = 9; role = codes "General User"; grade = codes "DO" }

abbrev deputy_user : AuthUser
deputy_user = record { id = 13; tenant_id = 9; role = codes "Secretary"; grade = codes "SO" }

decided :
    (db' : Db) × (decide waiting 1000 head_user 100 (record { status = some approve; reason = [] })
      ≡ ok db')
unfolding decide lock_chain decide_chain chosen_step first_actionable_index first_from actionable
    deps_done deps_of can_decide_step grade_at_least
decided = (_, refl)

waiting-chain : is_empty (lock_chain waiting 9 100) ≡ false
unfolding lock_chain
waiting-chain = refl

decide-confirms_example :
    (decided.0.bookings ≡ waiting.bookings)
    ⊎ ((decided.0.bookings
          ≡ change
              (λ (b : Booking). b.id == 100 && b.tenant_id == 9)
              confirmed_booking
              waiting.bookings)
        × ChainDone decided.0 9 100)
decide-confirms_example =
    decide-confirms waiting 1000 head_user 100 [] decided.0 waiting-chain decided.1

decide-authorised_example :
    (i : ℕ) × (s : ApprovalStep) × IsFirst
      (lock_chain waiting 9 100)
      (chain_rule waiting (lock_chain waiting 9 100))
      head_user
      i
    × (get_elem? (lock_chain waiting 9 100) i ≡ some s)
    × (decided.0.steps
        ≡ change
            (λ (x : ApprovalStep). x.id == s.id)
            (λ _. decided_step s approve [] (some 12) 1000)
            waiting.steps)
decide-authorised_example =
    decide-authorised waiting 1000 head_user 100 approve [] decided.0 waiting-chain decided.1

first_actionable_index-Choice_example :
    Choice
      (manager ∷ head ∷ [])
      none
      head_user
      (first_actionable_index (manager ∷ head ∷ []) none head_user)
first_actionable_index-Choice_example =
    first_actionable_index-Choice (manager ∷ head ∷ []) none head_user

-- The list was read when the booking waited; the booking was cancelled since.
abbrev cancelled_since : Db
cancelled_since = record waiting {
  bookings =
      change (λ (b : Booking). true) (λ (b : Booking). record b { status = cancelled })
        waiting.bookings;
}

reject_all-Outcome_example :
    RejectsPending cancelled_since.bookings
      (reject_all (ten + 1) waiting.bookings cancelled_since 0).0.bookings
    × All
        (λ (b : Booking).
          any
            (still_pending b.tenant_id b.id)
            (reject_all (ten + 1) waiting.bookings cancelled_since 0).0.bookings
          ≡ false)
        waiting.bookings
reject_all-Outcome_example = reject_all-Outcome (ten + 1) waiting.bookings cancelled_since

auto_reject_stale-settles_example :
    (any (still_pending 9 100) waiting.bookings ≡ true
      → ((auto_reject_stale waiting (ten + 1) 9 100).1 ≡ true)
        × (any (still_pending 9 100) (auto_reject_stale waiting (ten + 1) 9 100).0.bookings ≡ false)
        × (any (open_step 9 100) (auto_reject_stale waiting (ten + 1) 9 100).0.steps ≡ false))
    × (any (still_pending 9 100) waiting.bookings ≡ false
        → auto_reject_stale waiting (ten + 1) 9 100 ≡ (waiting, false))
auto_reject_stale-settles_example = auto_reject_stale-settles waiting (ten + 1) 9 100

delegated_step-can_decide_example :
    can_decide_step (delegated_step head 13 12 [] 1000) deputy_user ≡ (
      if deputy_user.id == 13
      then grade_at_least deputy_user.grade head.min_grade
      else can_decide_step head deputy_user)
delegated_step-can_decide_example = delegated_step-can_decide head 13 12 1000 [] deputy_user refl

abbrev all_may : ℕ → Text → Bool
all_may tenant role = true

delegates : (db' : Db) × (delegate all_may waiting 1000 head_user 100 13 [] ≡ ok db')
unfolding delegate lock_chain assert_eligible_delegate delegate_found delegate_step can_decide_step
    grade_at_least
delegates = (_, refl)

waiting-head :
    find (λ (x : ApprovalStep). is_pending x.status) (lock_chain waiting 9 100) ≡ some head
unfolding lock_chain
waiting-head = refl

delegate-authorised_example :
    ((can_decide_step head head_user || is_admin (codes "General User")) ≡ true)
    × IsDelegate all_may waiting 9 13
    × (delegates.0 ≡ save_step (delegated_step head 13 12 [] 1000) waiting)
delegate-authorised_example =
    delegate-authorised all_may waiting 1000 head_user 100 13 [] head delegates.0 waiting-head
      delegates.1

-- The owner cancelled the meeting while it waited.
abbrev dropped : Booking
dropped = record meeting { status = cancelled }

abbrev abandoned : Db
abandoned = record waiting { bookings = dropped ∷ [] }

revived :
    (db' : Db) × (decide abandoned 1000 head_user 100
        (record { status = some approve; reason = [] })
      ≡ ok db')
unfolding decide lock_chain decide_chain chosen_step first_actionable_index first_from actionable
    deps_done deps_of can_decide_step grade_at_least
revived = (_, refl)

abandoned-chain : is_empty (lock_chain abandoned 9 100) ≡ false
unfolding lock_chain
abandoned-chain = refl

abandoned-step : chosen_step abandoned (lock_chain abandoned 9 100) head_user ≡ ok head
unfolding lock_chain chosen_step first_actionable_index first_from actionable deps_done deps_of
    can_decide_step grade_at_least
abandoned-step = refl

abandoned-done : others_done (lock_chain abandoned 9 100) head ≡ true
unfolding lock_chain others_done
abandoned-done = refl

decide-revives_example : In (confirmed_booking dropped) revived.0.bookings
decide-revives_example =
    decide-revives abandoned 1000 head_user 100 [] head dropped revived.0 abandoned-chain revived.1
      abandoned-step abandoned-done (inl refl) refl refl

waiting-DepsDone : DepsDone (lock_chain waiting 9 100) none head_user (0 ∷ [])
unfolding lock_chain
waiting-DepsDone d (inl e) = (manager, (rw e refl), refl)
waiting-DepsDone d (inr i) = elim i [ ]

waiting-CanAct :
    CanAct (lock_chain waiting 9 100) (chain_rule waiting (lock_chain waiting 9 100)) head_user 1
unfolding lock_chain deps_of can_decide_step grade_at_least
waiting-CanAct = (head, refl, refl, waiting-DepsDone, refl)

decide-eq-ok_example :
    (db' : Db) × (decide waiting 1000 head_user 100 (record { status = some approve; reason = [] })
      ≡ ok db')
decide-eq-ok_example =
    decide-eq-ok waiting 1000 head_user 100 approve [] 1 waiting-chain waiting-CanAct refl
