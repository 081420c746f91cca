-- ===== src/Permissions/Catalog.antt =====
-- modules/permissions/permission-catalog.ts: the permission keys and the default matrix.
use booking_system.Base.{
  Option, none, some, List, [], ◌∷◌, Text, codes, text_eq, map, if◌then◌else◌,
}
use booking_system.Common.Roles.{system_admin, security_admin, room_admin, secretary, general_user}

-- `Object.values(Perm)`
abbrev pub all_permissions : List Text
all_permissions =
    codes "booking.create"
    ∷ codes "booking.cancel"
    ∷ codes "booking.cancel_others"
    ∷ codes "booking.update"
    ∷ codes "booking.read_all"
    ∷ codes "resource.create"
    ∷ codes "resource.update"
    ∷ codes "resource.delete"
    ∷ codes "resource.split"
    ∷ codes "user.create"
    ∷ codes "user.update"
    ∷ codes "user.deactivate"
    ∷ codes "department.manage"
    ∷ codes "holiday.manage"
    ∷ codes "holiday.import"
    ∷ codes "approval.decide"
    ∷ codes "approval.delegate"
    ∷ codes "approval.bypass"
    ∷ codes "approval_rule.manage"
    ∷ codes "webhook.manage"
    ∷ codes "integration.manage"
    ∷ codes "permission.manage"
    ∷ codes "report.view"
    ∷ codes "report.export"
    ∷ codes "customization.manage"
    ∷ codes "audit.view"
    ∷ codes "tenant.manage"
    ∷ codes "service.manage"
    ∷ codes "broadcast.manage"
    ∷ []

abbrev pub security_defaults : List Text
security_defaults =
    codes "booking.read_all"
    ∷ codes "approval.decide"
    ∷ codes "approval.delegate"
    ∷ codes "audit.view"
    ∷ codes "user.update"
    ∷ codes "permission.manage"
    ∷ []

abbrev pub room_defaults : List Text
room_defaults =
    codes "booking.create"
    ∷ codes "booking.cancel"
    ∷ codes "booking.cancel_others"
    ∷ codes "booking.update"
    ∷ codes "booking.read_all"
    ∷ codes "resource.create"
    ∷ codes "resource.update"
    ∷ codes "resource.delete"
    ∷ codes "resource.split"
    ∷ codes "approval.decide"
    ∷ codes "approval.delegate"
    ∷ codes "report.view"
    ∷ codes "report.export"
    ∷ []

abbrev pub secretary_defaults : List Text
secretary_defaults =
    codes "booking.create"
    ∷ codes "booking.cancel"
    ∷ codes "booking.update"
    ∷ codes "booking.read_all"
    ∷ codes "approval.decide"
    ∷ []

abbrev pub general_defaults : List Text
general_defaults = codes "booking.create" ∷ codes "booking.cancel" ∷ codes "booking.update" ∷ []

-- The roles with their permissions, in the order of the object's keys.
unfoldable pub default_matrix : List (Text × List Text)
default_matrix =
    (system_admin, all_permissions)
    ∷ (security_admin, security_defaults)
    ∷ (room_admin, room_defaults)
    ∷ (secretary, secretary_defaults)
    ∷ (general_user, general_defaults)
    ∷ []

-- `matrix[role]`
unfoldable pub matrix_role : List (Text × List Text) → Text → Option (List Text)
matrix_role [] role = none
matrix_role ((r, ps) ∷ m) role = if text_eq r role then some ps else matrix_role m role

unfoldable pub system_roles : List Text
system_roles = map (λ (e : Text × List Text). e.0) default_matrix
