-- ===== src/Store/Resource.antt =====
-- modules/resources/resource.entity.ts
use booking_system.Base.{ℕ, Bool, true, false, Option, List, Text}
use booking_system.Common.OperatingHours.{OperatingHours}
use booking_system.Store.Booking.{BookingMode}

-- 'standalone', 'parent' and 'child'.
pub data CompositeMode : Type 0 where
  standalone parent child : CompositeMode

pub record CustomField : Type 0 where
  pub key : Text
  pub required : Bool

pub record RuleOverrides : Type 0 where
  pub min_duration_minutes : Option ℕ
  pub max_duration_minutes : Option ℕ
  pub booking_horizon_days : Option ℕ
  pub grace_minutes : Option ℕ
  pub requires_approval : Option Bool

pub record Resource : Type 0 where
  pub id : ℕ
  pub tenant_id : ℕ
  pub name : Text
  pub region : Text
  pub asset_type : Text
  pub is_active : Bool
  pub is_restricted : Bool
  pub requires_approval : Bool
  pub parent_resource_id : Option ℕ
  pub composite_mode : CompositeMode
  pub department_id : Option ℕ
  pub booking_mode : BookingMode
  pub shared_capacity : ℕ
  pub operating_hours : Option OperatingHours
  pub custom_fields : List CustomField
  pub rule_overrides : RuleOverrides
  pub cost_center_code : Option Text

abbrev pub is_parent : CompositeMode → Bool
is_parent parent = true
is_parent _ = false

abbrev pub is_child : CompositeMode → Bool
is_child child = true
is_child _ = false
