-- ===== src/Tests/Permissions.antt =====
-- The permission matrix at concrete inputs.
use booking_system.Base.{
  ℕ, ◌≡◌, refl, inl, inr, ◌⊎◌, Bool, true, false, not, ◌&&◌, ◌||◌, Option, none, some, List, [],
  ◌∷◌, Text, codes, text_eq, includes_text, is_empty, all, if◌then◌else◌, ok, err, forbidden,
}
use booking_system.Common.Roles.{system_admin, security_admin}
use booking_system.Permissions.Service.{
  State, SetRole, has_permission, effective, set_role, can_activate, previous_of, find_row,
  perms_for_role, clean_keys,
}
use booking_system.Permissions.History.{Op, checks, gets, sets, creates, run, run-has_permission}
use booking_system.Permissions.Authority.{set_role-not_escalated, can_activate-effective}

abbrev start : State
start = record { rows = []; users = []; cache = []; published = [] }

abbrev caterer : Text
caterer = codes "Caterer"

-- The role is looked up, made, and given a permission by the security admin, who holds it.
abbrev ops : List Op
ops =
    checks 1000 9 caterer (codes "audit.view")
    ∷ gets 1500 9
    ∷ creates 2000 9 caterer
    ∷ sets 3000 9 caterer (codes " audit.view " ∷ []) none (some security_admin)
    ∷ checks 3500 9 caterer (codes "audit.view")
    ∷ []

run-has_permission_example :
    (has_permission 4000 9 caterer (codes "audit.view") (run ops start)).0
    ≡ includes_text (effective (run ops start).rows 9 caterer) (codes "audit.view")
run-has_permission_example = run-has_permission ops start 4000 9 caterer (codes "audit.view") refl

edit :
    (res : SetRole) × ((set_role 3000 9 caterer
        (codes "audit.view" ∷ [])
        none
        (some security_admin)
        start).0
      ≡ ok res)
unfolding set_role text_eq booking_system.Permissions.Service.escalated clean_keys
    booking_system.Base.trim perms_for_role booking_system.Permissions.Service.load
    booking_system.Permissions.Service.add_all effective
    booking_system.Permissions.Catalog.matrix_role booking_system.Permissions.Catalog.default_matrix
edit = (_, refl)

not_root : text_eq security_admin system_admin ≡ false
unfolding text_eq
not_root = refl

abbrev edited : State
edited = (set_role 3000 9 caterer (codes "audit.view" ∷ []) none (some security_admin) start).1

next_key : includes_text (previous_of (find_row edited.rows 9 caterer)) (codes "audit.view") ≡ true
unfolding set_role text_eq booking_system.Permissions.Service.escalated clean_keys
    booking_system.Base.trim perms_for_role booking_system.Permissions.Service.load
    booking_system.Permissions.Service.add_all effective
    booking_system.Permissions.Catalog.matrix_role booking_system.Permissions.Catalog.default_matrix
    booking_system.Permissions.Service.invalidate booking_system.Permissions.Service.drop_local
next_key = refl

set_role-not_escalated_example :
    (includes_text (previous_of (find_row start.rows 9 caterer)) (codes "audit.view") ≡ true)
    ⊎ (includes_text (effective start.rows 9 security_admin) (codes "audit.view") ≡ true)
set_role-not_escalated_example =
    set_role-not_escalated 3000 9 caterer (codes "audit.view" ∷ []) none security_admin start edit.0
      (codes "audit.view") tt not_root edit.1 next_key

can_activate-effective_example :
    (can_activate 5000 (codes "audit.view" ∷ []) (some (9, security_admin)) start).0 ≡ (
      if is_empty (codes "audit.view" ∷ [])
        || text_eq security_admin system_admin
        || all (includes_text (effective start.rows 9 security_admin)) (codes "audit.view" ∷ [])
      then ok tt
      else err forbidden)
can_activate-effective_example =
    can_activate-effective 5000 9 security_admin (codes "audit.view" ∷ []) start tt refl
