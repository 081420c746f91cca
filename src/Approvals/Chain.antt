-- ===== src/Approvals/Chain.antt =====
-- approvals.service.ts: the choice of a rule and the materialization of its chain.
use booking_system.Base.{
  ℕ, suc, ◌+◌, ◌*◌, Bool, true, false, ◌&&◌, Option, none, some, List, [], ◌∷◌, ◌++◌, Text, text_eq,
  if◌then◌else◌, ◌==◌, ltb, leb, find, keep, any, length, is_empty, ◌≡◌, refl, inl, inr,
  Option-cases, ◌≤◌, arith,
}
use booking_system.Store.Booking.{Booking}
use booking_system.Store.Resource.{Resource}
use booking_system.Store.Tenant.{User, Department}
use booking_system.Store.Approval.{
  ScopeType, asset_type, resource, department, tenant, ApproverType, manager, department_head, role,
  user, ApprovalLevel, ApprovalRule, ApprovalStep, StepStatus,
}
use booking_system.Store.Db.{Db, find_resource, find_user, find_department}

abbrev hour_ms : ℕ
hour_ms = 3600000

abbrev id_or_empty : Option ℕ → ℕ
id_or_empty none = 0
id_or_empty (some d) = d

unfoldable pub scope_matches : ScopeType → ApprovalRule → Resource → Bool
scope_matches resource r res = res.id == r.scope_id
scope_matches asset_type r res = text_eq res.asset_type r.scope_value
scope_matches department r res = id_or_empty res.department_id == r.scope_id
scope_matches tenant r res = is_empty r.scope_value && r.scope_id == 0

-- `ORDER BY priority ASC`, stable.
insert_rule : ApprovalRule → List ApprovalRule → List ApprovalRule
insert_rule r [] = r ∷ []
insert_rule r (x ∷ xs) = if leb r.priority x.priority then r ∷ x ∷ xs else x ∷ insert_rule r xs

by_priority : List ApprovalRule → List ApprovalRule
unfolding insert_rule
by_priority [] = []
by_priority (r ∷ rs) = insert_rule r (by_priority rs)

unfoldable pub match_rule : Db → ℕ → Resource → Option ApprovalRule
unfolding by_priority scope_matches
match_rule db tenant_id res =
    find (λ (r : ApprovalRule). scope_matches r.scope_type r res)
      (by_priority (keep (λ (r : ApprovalRule). r.tenant_id == tenant_id && r.is_active) db.rules))

abbrev singleton_of : Option ℕ → List ℕ
singleton_of none = []
singleton_of (some u) = u ∷ []

abbrev level_approvers : Option ApproverType → ApprovalLevel → Option ℕ → Option ℕ → List ℕ × Text
level_approvers (some manager) lvl m h = (singleton_of m, [])
level_approvers (some department_head) lvl m h = (singleton_of h, [])
level_approvers (some role) lvl m h = ([], lvl.approver_role)
level_approvers (some user) lvl m h = (lvl.approver_user_ids, lvl.approver_role)
level_approvers none lvl m h = (lvl.approver_user_ids, lvl.approver_role)

unfoldable pub resolve_level_approvers : ApprovalLevel → Option ℕ → Option ℕ → List ℕ × Text
resolve_level_approvers lvl manager_id head_id =
    level_approvers lvl.approver_type lvl manager_id head_id

abbrev manager_of : Option User → Option ℕ
manager_of none = none
manager_of (some u) = u.manager_id

abbrev head_of : Option Department → Option ℕ
head_of none = none
head_of (some d) = d.head_user_id

abbrev head_in : Db → ℕ → Option ℕ → Option ℕ
head_in db tenant_id none = none
head_in db tenant_id (some d) = head_of (find_department db tenant_id d)

-- The rows of the levels from index `i` on, with ids from `id` on.
unfoldable pub step_rows :
    Booking
    → ApprovalRule
    → Option ℕ
    → Option ℕ
    → ℕ
    → ℕ
    → ℕ
    → List ApprovalLevel
    → List ApprovalStep
unfolding resolve_level_approvers
step_rows b rule m h now id i [] = []
step_rows b rule m h now id i (lvl ∷ levels) =
    record {
      id = id;
      tenant_id = b.tenant_id;
      booking_id = b.id;
      rule_id = some rule.id;
      step_index = i;
      level_name = lvl.name;
      approver_ids = (resolve_level_approvers lvl m h).0;
      approver_role = (resolve_level_approvers lvl m h).1;
      min_grade = lvl.min_grade;
      status = StepStatus.pending;
      decided_by = none;
      decision_at = none;
      reason = [];
      due_at =
          if ltb 0 lvl.auto_after_hours then some (now + lvl.auto_after_hours * hour_ms) else none;
      delegated_to = none;
      delegated_by = none;
      delegated_at = none;
    }
    ∷ step_rows b rule m h now (suc id) (suc i) levels

abbrev is_manager : ApprovalLevel → Bool
is_manager lvl = elim lvl.approver_type [
  | none ↦ false
  | some t ↦ elim t [ manager ↦ true | _ ↦ false ]
]

abbrev is_department_head : ApprovalLevel → Bool
is_department_head lvl = elim lvl.approver_type [
  | none ↦ false
  | some t ↦ elim t [ department_head ↦ true | _ ↦ false ]
]

abbrev add_rows : Db → Booking → Resource → ℕ → ApprovalRule → Db
add_rows db b res now rule =
    let m : Option ℕ =
      (if any is_manager rule.levels
        then manager_of (find_user db b.tenant_id b.user_id)
        else none) in
    let h : Option ℕ =
      (if any is_department_head rule.levels
        then head_in db b.tenant_id res.department_id
        else none) in
    record db {
      steps = db.steps ++ step_rows b rule m h now db.next_id 0 rule.levels;
      next_id = db.next_id + length rule.levels;
    }

-- The chain of a booking that needs approval; no rule or no level leaves no chain.
unfoldable pub materialize : Db → ℕ → Booking → Db
unfolding match_rule step_rows
materialize db now b = elim (find_resource db b.tenant_id b.resource_id) [
  | none ↦ db
  | some res ↦ elim (match_rule db b.tenant_id res) [
    | none ↦ db
    | some rule ↦ add_rows db b res now rule
  ]
]

-- The chain is added beside the bookings and the rooms.
pub materialize-bookings :
    (db : Db) (now : ℕ) (b : Booking) → (materialize db now b).bookings ≡ db.bookings
unfolding materialize
materialize-bookings db now b = elim (Option-cases (find_resource db b.tenant_id b.resource_id)) [
  | inl e ↦ rw (e, materialize) refl
  | inr (res, e) ↦
      rw (e, materialize)
        (elim (Option-cases (match_rule db b.tenant_id res)) [
          | inl f ↦ rw (f) refl
          | inr (rule, f) ↦ rw (f) refl
        ])
]

pub materialize-resources :
    (db : Db) (now : ℕ) (b : Booking) → (materialize db now b).resources ≡ db.resources
unfolding materialize
materialize-resources db now b = elim (Option-cases (find_resource db b.tenant_id b.resource_id)) [
  | inl e ↦ rw (e, materialize) refl
  | inr (res, e) ↦
      rw (e, materialize)
        (elim (Option-cases (match_rule db b.tenant_id res)) [
          | inl f ↦ rw f refl
          | inr (rule, f) ↦ rw f refl
        ])
]

pub materialize-next_id :
    (db : Db) (now : ℕ) (b : Booking) → db.next_id ≤ (materialize db now b).next_id
unfolding materialize
materialize-next_id db now b = elim (Option-cases (find_resource db b.tenant_id b.resource_id)) [
  | inl e ↦ rw (e, materialize) (omega arith)
  | inr (res, e) ↦
      rw (e, materialize)
        (elim (Option-cases (match_rule db b.tenant_id res)) [
          | inl f ↦ rw f (omega arith)
          | inr (rule, f) ↦ rw f (omega arith)
        ])
]
