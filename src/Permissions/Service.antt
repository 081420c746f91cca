-- ===== src/Permissions/Service.antt =====
-- permissions.service.ts: its operations; common/guards/permissions.guard.ts: `canActivate`.
use booking_system.Base.{
  ℕ, ◌+◌, Bool, true, false, not, ◌&&◌, ◌||◌, Option, none, some, or_else, List, [], ◌∷◌, ◌++◌,
  Text, text_eq, trim, to_lower_case, includes_text, is_empty, any, find, keep, change, tally,
  length, if◌then◌else◌, ◌==◌, ltb, Result, ok, err, ◌>>◌, throw_if, bad_request, conflict,
  forbidden, not_found, role_required, role_too_long, role_changed, built_in_role, role_exists,
  role_in_use,
}
use booking_system.Common.Roles.{system_admin}
use booking_system.Store.Tenant.{User}
use booking_system.Permissions.Catalog.{default_matrix, matrix_role, system_roles}

-- modules/permissions/role-permission.entity.ts
pub record RolePermission : Type 0 where
  pub tenant_id : ℕ
  pub role : Text
  pub permissions : List Text
  pub updated_at : ℕ

-- An entry of the cache; `perms` lists a set.
pub record Entry : Type 0 where
  pub tenant_id : ℕ
  pub role : Text
  pub perms : List Text
  pub expires_at : ℕ

-- The tables and the cache of the process, with what it published for the other processes.
pub record State : Type 0 where
  pub rows : List RolePermission
  pub users : List User
  pub cache : List Entry
  pub published : List ℕ

abbrev pub cache_ttl_ms : ℕ
cache_ttl_ms = 30000

abbrev pub is_row : ℕ → Text → RolePermission → Bool
is_row tenant role r = r.tenant_id == tenant && text_eq r.role role

abbrev pub is_entry : ℕ → Text → Entry → Bool
is_entry tenant role e = e.tenant_id == tenant && text_eq e.role role

-- `set.add(x)`
abbrev pub add_once : List Text → Text → List Text
add_once xs x = if includes_text xs x then xs else xs ++ (x ∷ [])

unfoldable pub add_all : List Text → List Text → List Text
add_all xs [] = xs
add_all xs (y ∷ ys) = add_all (add_once xs y) ys

-- `new Set(list)`
abbrev pub to_set : List Text → List Text
to_set xs = add_all [] xs

-- `row?.permissions ?? defaultMatrix()[role] ?? []`
abbrev pub granted : Option RolePermission → Text → List Text
granted none role = or_else (matrix_role default_matrix role) []
granted (some r) role = r.permissions

abbrev pub find_row : List RolePermission → ℕ → Text → Option RolePermission
find_row rows tenant role = find (is_row tenant role) rows

unfoldable pub effective : List RolePermission → ℕ → Text → List Text
effective rows tenant role = granted (find_row rows tenant role) role

-- `cache.set(key, …)`
abbrev pub put : Entry → List Entry → List Entry
put e cache = e ∷ keep (λ (x : Entry). not (is_entry e.tenant_id e.role x)) cache

unfoldable pub load : ℕ → ℕ → Text → State → List Text × State
load now tenant role st =
    let perms = to_set (effective st.rows tenant role) in
    (
      perms,
      record st {
        cache =
            put
              (record {
                tenant_id = tenant;
                role = role;
                perms = perms;
                expires_at = now + cache_ttl_ms;
              })
              st.cache;
      },
    )

abbrev pub answer : ℕ → ℕ → Text → State → Option Entry → List Text × State
answer now tenant role st none = load now tenant role st
answer now tenant role st (some e) =
    if ltb now e.expires_at then (e.perms, st) else load now tenant role st

unfoldable pub perms_for_role : ℕ → ℕ → Text → State → List Text × State
perms_for_role now tenant role st = answer now tenant role st (find (is_entry tenant role) st.cache)

unfoldable pub has_permission : ℕ → ℕ → Text → Text → State → Bool × State
has_permission now tenant role permission st =
    let (perms, st') = perms_for_role now tenant role st in (includes_text perms permission, st')

-- Another process's message; `none` is the payload '*'.
unfoldable pub drop_local : Option ℕ → State → State
drop_local none st = record st { cache = [] }
drop_local (some tenant) st = record st {
  cache = keep (λ (e : Entry). not (e.tenant_id == tenant)) st.cache;
}

unfoldable pub invalidate : ℕ → State → State
invalidate tenant st =
    let dropped = drop_local (some tenant) st in
    record dropped { published = tenant ∷ dropped.published }

abbrev pub seeds : ℕ → ℕ → List (Text × List Text) → List RolePermission
seeds now tenant [] = []
seeds now tenant ((role, ps) ∷ m) =
    record { tenant_id = tenant; role = role; permissions = ps; updated_at = now }
    ∷ seeds now tenant m

abbrev pub of_tenant : ℕ → RolePermission → Bool
of_tenant tenant r = r.tenant_id == tenant

-- The rows of the matrix: those of the tenant, seeded with the defaults on its first visit.
unfoldable pub get : ℕ → ℕ → State → List RolePermission × State
get now tenant st =
    let rows = keep (of_tenant tenant) st.rows in
    let seeded = seeds now tenant default_matrix in
    if is_empty rows then (seeded, record st { rows = seeded ++ st.rows }) else (rows, st)

-- A key of the request, trimmed, unless it is blank or there already.
abbrev pub add_clean : List Text → Text → List Text
add_clean xs t = if is_empty t || includes_text xs t then xs else xs ++ (t ∷ [])

unfoldable pub clean_keys : List Text → List Text → List Text
clean_keys seen [] = seen
clean_keys seen (p ∷ ps) = clean_keys (add_clean seen (trim p)) ps

-- `expectedVersion !== undefined && existing` and they differ.
abbrev pub stale : Option ℕ → Option RolePermission → Bool
stale (some v) (some r) = not (r.updated_at == v)
stale _ _ = false

abbrev pub previous_of : Option RolePermission → List Text
previous_of none = []
previous_of (some r) = r.permissions

-- The keys that the editor adds and does not hold.
unfoldable pub escalated : List Text → List Text → List Text → List Text
escalated actor_perms previous clean =
    keep (λ p. not (includes_text previous p) && not (includes_text actor_perms p)) clean

abbrev pub new_row : ℕ → ℕ → Text → List Text → RolePermission
new_row now tenant role ps = record {
  tenant_id = tenant;
  role = role;
  permissions = ps;
  updated_at = now;
}

abbrev pub save_row : ℕ → ℕ → Text → List Text → Option RolePermission → State → State
save_row now tenant role ps none st = record st { rows = new_row now tenant role ps ∷ st.rows }
save_row now tenant role ps (some r) st = record st {
  rows =
      change (is_row tenant role)
        (λ (x : RolePermission). record x { permissions = ps; updated_at = now }) st.rows;
}

pub record SetRole : Type 0 where
  pub previous : List Text
  pub next : List Text
  pub version : ℕ

-- The check of an editor: `none` where there is none to check.
abbrev pub check_actor :
    ℕ → ℕ → Option Text → List Text → List Text → State → Result (Unit {0}) × State
check_actor now tenant none previous clean st = (ok tt, st)
check_actor now tenant (some actor) previous clean st =
    if text_eq actor system_admin then (ok tt, st) else (
      throw_if (not (is_empty (escalated (perms_for_role now tenant actor st).0 previous clean)))
          forbidden,
      (perms_for_role now tenant actor st).1,
    )

abbrev pub write_role :
    ℕ
    → ℕ
    → Text
    → List Text
    → Option RolePermission
    → Result (Unit {0}) × State
    → Result SetRole × State
write_role now tenant role clean existing (err e, st) = (err e, st)
write_role now tenant role clean existing (ok u, st) = (
  ok (record { previous = previous_of existing; next = clean; version = now }),
  invalidate tenant (save_row now tenant role clean existing st),
)

unfoldable pub set_role :
    ℕ → ℕ → Text → List Text → Option ℕ → Option Text → State → Result SetRole × State
set_role now tenant role permissions expected actor st =
    let clean = clean_keys [] permissions in
    let existing = find_row st.rows tenant role in
    if text_eq role system_admin
    then (err forbidden, st)
    else if stale expected existing
    then (err (conflict role_changed), st)
    else write_role now tenant role clean existing
        (check_actor now tenant actor (previous_of existing) clean st)

abbrev pub is_built_in : Text → Bool
is_built_in name = any (λ r. text_eq (to_lower_case r) (to_lower_case name)) system_roles

abbrev pub absent : Option RolePermission → Bool
absent none = true
absent (some r) = false

unfoldable pub create_role : ℕ → ℕ → Text → State → Result (Text × State)
create_role now tenant role st =
    let name = trim role in
    (do
      throw_if (is_empty name) (bad_request role_required)
      throw_if (ltb 64 (length name)) (bad_request role_too_long)
      throw_if (is_built_in name) (conflict built_in_role)
      throw_if (not (absent (find_row st.rows tenant name))) (conflict role_exists)
      ok (name, invalidate tenant (record st { rows = new_row now tenant name [] ∷ st.rows })))

abbrev pub in_use : ℕ → Text → State → ℕ
in_use tenant role st = tally (λ (u : User). u.tenant_id == tenant && text_eq u.role role) st.users

unfoldable pub delete_role : ℕ → Text → State → Result State
delete_role tenant role st = do
  throw_if (includes_text system_roles role) forbidden
  throw_if (ltb 0 (in_use tenant role st)) (conflict role_in_use)
  throw_if (absent (find_row st.rows tenant role)) not_found
  ok (
      invalidate tenant
        (record st { rows = keep (λ (r : RolePermission). not (is_row tenant role r)) st.rows }))

-- The permissions that a route requires, one after the other.
unfoldable pub require : ℕ → ℕ → Text → List Text → State → Result (Unit {0}) × State
require now tenant role [] st = (ok tt, st)
require now tenant role (p ∷ ps) st =
    let (holds, st') = has_permission now tenant role p st in
    let rest = require now tenant role ps st' in if holds then rest else (err forbidden, st')

abbrev pub guard_user : ℕ → List Text → Option (ℕ × Text) → State → Result (Unit {0}) × State
guard_user now required none st = (err forbidden, st)
guard_user now required (some (tenant, role)) st =
    if tenant == 0 || is_empty role
    then (err forbidden, st)
    else if text_eq role system_admin
    then (ok tt, st)
    else require now tenant role required st

unfoldable pub can_activate : ℕ → List Text → Option (ℕ × Text) → State → Result (Unit {0}) × State
can_activate now required user st =
    if is_empty required then (ok tt, st) else guard_user now required user st
