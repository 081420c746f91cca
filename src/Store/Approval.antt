-- ===== src/Store/Approval.antt =====
-- modules/approvals: approval-rule.entity.ts, approval-step.entity.ts and approval.entity.ts
use booking_system.Base.{ℕ, Bool, true, false, Option, List, Text}

pub data ScopeType : Type 0 where
  asset_type resource department tenant : ScopeType

pub data ApproverType : Type 0 where
  user role manager department_head : ApproverType

pub record ApprovalLevel : Type 0 where
  pub name : Text
  pub approver_type : Option ApproverType
  pub approver_user_ids : List ℕ
  pub approver_role : Text
  pub min_grade : Text
  pub auto_after_hours : ℕ
  pub dependencies : List ℕ

-- `scope_value` is a resource, department or asset type; as an id it is kept in `scope_id`.
pub record ApprovalRule : Type 0 where
  pub id : ℕ
  pub tenant_id : ℕ
  pub scope_type : ScopeType
  pub scope_id : ℕ
  pub scope_value : Text
  pub priority : ℕ
  pub levels : List ApprovalLevel
  pub is_active : Bool

pub data StepStatus : Type 0 where
  pending approved rejected skipped : StepStatus

pub record ApprovalStep : Type 0 where
  pub id : ℕ
  pub tenant_id : ℕ
  pub booking_id : ℕ
  pub rule_id : Option ℕ
  pub step_index : ℕ
  pub level_name : Text
  pub approver_ids : List ℕ
  pub approver_role : Text
  pub min_grade : Text
  pub status : StepStatus
  pub decided_by : Option ℕ
  pub decision_at : Option ℕ
  pub reason : Text
  pub due_at : Option ℕ
  pub delegated_to : Option ℕ
  pub delegated_by : Option ℕ
  pub delegated_at : Option ℕ

pub data Decision : Type 0 where
  approve reject : Decision

pub record Approval : Type 0 where
  pub tenant_id : ℕ
  pub booking_id : ℕ
  pub approver_id : Option ℕ
  pub decision : Decision
  pub reason : Text

abbrev pub is_pending : StepStatus → Bool
is_pending pending = true
is_pending _ = false

-- `status === 'approved' || status === 'skipped'`
abbrev pub is_done : StepStatus → Bool
is_done approved = true
is_done skipped = true
is_done _ = false
