-- ===== src/Store/Tenant.antt =====
-- What the booking path reads of users, departments, tenant customizations and holidays.
use booking_system.Base.{ℕ, Bool, Option, List, Text}

-- modules/users/user.entity.ts; `departments` holds the ids of the relation.
pub record User : Type 0 where
  pub id : ℕ
  pub tenant_id : ℕ
  pub role : Text
  pub is_active : Bool
  pub grade : Text
  pub manager_id : Option ℕ
  pub departments : List ℕ

pub record Department : Type 0 where
  pub id : ℕ
  pub tenant_id : ℕ
  pub head_user_id : Option ℕ

-- The keys of the customization document that the booking rules read, an absent one as `none`.
pub record Customization : Type 0 where
  pub timezone : Option Text
  pub min_duration_minutes : Option ℕ
  pub max_duration_minutes : Option ℕ
  pub booking_horizon_days : Option ℕ
  pub blackout_dates : List ℕ
  pub cost_centers : List Text
  pub auto_release_enabled : Option Bool
  pub auto_release_grace_minutes : Option ℕ

-- modules/holidays/holiday.entity.ts; `region` is empty for a closure of the whole tenant.
pub record Holiday : Type 0 where
  pub tenant_id : ℕ
  pub holiday_date : ℕ
  pub region : Text
  pub is_blocker : Bool
