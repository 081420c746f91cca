-- ===== src/Approvals/Eligibility.antt =====
-- approvals.service.ts: who may decide which step.
pub mod Progress
use booking_system.Base.{
  ℕ, zero, suc, ◌-◌, Bool, true, false, not, ◌&&◌, ◌||◌, Option, none, some, List, [], ◌∷◌, Text,
  text_eq, to_lower_case, if◌then◌else◌, ◌==◌, same_opt, includes, all, is_empty, get_elem?,
}
use booking_system.Common.Roles.{is_admin, is_system_admin}
use booking_system.Store.Booking.{Booking}
use booking_system.Store.Approval.{ApprovalLevel, ApprovalRule, ApprovalStep, is_pending, is_done}
use booking_system.Approvals.Grade.{grade_at_least}

-- The authenticated user.
pub record AuthUser : Type 0 where
  pub id : ℕ
  pub tenant_id : ℕ
  pub role : Text
  pub grade : Text

abbrev given_deps : Option ApprovalLevel → List ℕ
given_deps none = []
given_deps (some l) = l.dependencies

abbrev rule_deps : Option ApprovalRule → ℕ → List ℕ
rule_deps none i = []
rule_deps (some r) i = given_deps (get_elem? r.levels i)

-- Without dependencies a step waits for the one before.
abbrev linear_deps : List ℕ → ℕ → List ℕ
linear_deps (d ∷ ds) i = d ∷ ds
linear_deps [] zero = []
linear_deps [] (suc i) = i ∷ []

unfoldable pub deps_of : Option ApprovalRule → ℕ → List ℕ
deps_of rule i = linear_deps (rule_deps rule i) i

abbrev pub step_done : Option ApprovalStep → Bool
step_done none = false
step_done (some s) = is_done s.status

-- `deps.every((d) => steps[d] && isDone(steps[d]))`
unfoldable pub deps_done : List ApprovalStep → List ℕ → Bool
deps_done steps deps = all (λ d. step_done (get_elem? steps d)) deps

unfoldable pub same_role : Text → Text → Bool
same_role wanted role = not (is_empty wanted) && text_eq (to_lower_case wanted) (to_lower_case role)

unfoldable pub can_decide_step : ApprovalStep → AuthUser → Bool
can_decide_step s u =
    if includes s.approver_ids u.id || same_role s.approver_role u.role
    then grade_at_least u.grade s.min_grade
    else is_system_admin u.role && is_empty s.approver_ids && is_empty s.approver_role

unfoldable pub can_decide_legacy : AuthUser → Booking → Bool
can_decide_legacy u b = same_opt b.delegated_to u.id || is_admin u.role

-- The guard of the loop over the steps.
unfoldable pub actionable :
    List ApprovalStep → Option ApprovalRule → AuthUser → ℕ → ApprovalStep → Bool
actionable steps rule u i s =
    is_pending s.status && deps_done steps (deps_of rule i) && can_decide_step s u

-- The loop from index `i` on; `none` is -1.
unfoldable pub first_from :
    List ApprovalStep → Option ApprovalRule → AuthUser → ℕ → List ApprovalStep → Option ℕ
first_from steps rule u i [] = none
first_from steps rule u i (s ∷ rest) =
    if actionable steps rule u i s then some i else first_from steps rule u (suc i) rest

unfoldable pub first_actionable_index :
    List ApprovalStep → Option ApprovalRule → AuthUser → Option ℕ
first_actionable_index steps rule u = first_from steps rule u 0 steps
