-- ===== src/Common/Roles.antt =====
-- common/decorators/roles.decorator.ts: the role names and the admin tier.
use booking_system.Base.{Bool, List, [], ◌∷◌, Text, codes, text_eq, includes_text}

abbrev pub system_admin : Text
system_admin = codes "System Admin"

abbrev pub security_admin : Text
security_admin = codes "Security Admin"

abbrev pub room_admin : Text
room_admin = codes "Room Admin"

abbrev pub secretary : Text
secretary = codes "Secretary"

abbrev pub general_user : Text
general_user = codes "General User"

abbrev pub admin_roles : List Text
admin_roles = system_admin ∷ security_admin ∷ room_admin ∷ secretary ∷ []

-- `AdminRoles.includes(role)`, and the `isAdmin` of the services.
unfoldable pub is_admin : Text → Bool
unfolding text_eq
is_admin role = includes_text admin_roles role

unfoldable pub is_system_admin : Text → Bool
unfolding text_eq
is_system_admin role = text_eq role system_admin
