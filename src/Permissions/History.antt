-- ===== src/Permissions/History.antt =====
-- permissions.service.ts: the service through any sequence of its calls.
use booking_system.Base.{
  ℕ, ◌≡◌, sym, ap, subst, ◌∙◌, inl, inr, not, ◌||◌, Option, none, some, List, [], ◌∷◌, ◌++◌, Text,
  text_eq, includes_text, is_empty, trim, keep, change, ◌==◌, Result, ok, err, All, All-keep,
  All-imp, arith, Bool-cases, Result-cases,
}
use booking_system.Common.Roles.{system_admin}
use booking_system.Permissions.Catalog.{default_matrix}
use booking_system.Permissions.Service.{
  RolePermission, Entry, State, is_row, to_set, find_row, effective, has_permission, drop_local,
  invalidate, seeds, of_tenant, get, new_row, save_row, check_actor, write_role, set_role,
  create_role, delete_role, clean_keys, previous_of, stale, can_activate, guard_user, require,
}
use booking_system.Permissions.Sets.{includes_text-to_set}
use booking_system.Permissions.Coherence.{
  IsTrue, IsCoherent, perms_for_role-Looked, invalidate-IsCoherent, find-cons, find-keep,
  find-change, seeded-effective,
}

-- The calls of the service, and the message of another process; a guard checks a route's permissions.
pub data Op : Type 0 where
  checks : (now tenant : ℕ) → Text → Text → Op
  guards : (now : ℕ) → List Text → Option (ℕ × Text) → Op
  gets : (now tenant : ℕ) → Op
  sets : (now tenant : ℕ) → Text → List Text → Option ℕ → Option Text → Op
  creates : (now tenant : ℕ) → Text → Op
  deletes : (tenant : ℕ) → Text → Op
  drops : Option ℕ → Op

abbrev pub after_create : State → Result (Text × State) → State
after_create st (ok r) = r.1
after_create st (err e) = st

abbrev pub after_delete : State → Result State → State
after_delete st (ok s) = s
after_delete st (err e) = st

unfoldable pub apply : Op → State → State
apply (checks now tenant role permission) st = (has_permission now tenant role permission st).1
apply (guards now required user) st = (can_activate now required user st).1
apply (gets now tenant) st = (get now tenant st).1
apply (sets now tenant role ps expected actor) st =
    (set_role now tenant role ps expected actor st).1
apply (creates now tenant role) st = after_create st (create_role now tenant role st)
apply (deletes tenant role) st = after_delete st (delete_role tenant role st)
apply (drops tenant) st = drop_local tenant st

unfoldable pub run : List Op → State → State
run [] st = st
run (o ∷ os) st = run os (apply o st)

pub has_permission-IsCoherent :
    (now tenant : ℕ) (role permission : Text) (st : State)
    → IsCoherent st
    → IsCoherent (has_permission now tenant role permission st).1
unfolding has_permission
has_permission-IsCoherent now tenant role permission st c =
    (perms_for_role-Looked now tenant role st c).coherent

-- The cached answer is that of the tables.
pub has_permission-effective :
    (now tenant : ℕ) (role permission : Text) (st : State)
    → IsCoherent st
    → ((has_permission now tenant role permission st).0
        ≡ includes_text (effective st.rows tenant role) permission)
      × ((has_permission now tenant role permission st).1.rows ≡ st.rows)
unfolding has_permission
has_permission-effective now tenant role permission st c =
    let l = perms_for_role-Looked now tenant role st c in
    (
      ap (λ ps. includes_text ps permission) l.perms
          ∙ includes_text-to_set (effective st.rows tenant role) permission,
      l.rows,
    )

require-IsCoherent :
    (now tenant : ℕ) (role : Text) (ps : List Text) (st : State)
    → IsCoherent st
    → IsCoherent (require now tenant role ps st).1
unfolding require
require-IsCoherent now tenant role [] st c = c
require-IsCoherent now tenant role (p ∷ ps) st c =
    let c' = has_permission-IsCoherent now tenant role p st c in
    elim (Bool-cases (has_permission now tenant role p st).0) [
      | inl e ↦
          rw e (require-IsCoherent now tenant role ps (has_permission now tenant role p st).1 c')
      | inr e ↦ rw e c'
    ]

guard_user-IsCoherent :
    (now : ℕ) (required : List Text) (user : Option (ℕ × Text)) (st : State)
    → IsCoherent st
    → IsCoherent (guard_user now required user st).1
guard_user-IsCoherent now required none st c = c
guard_user-IsCoherent now required (some (tenant, role)) st c =
    elim (Bool-cases (tenant == 0 || is_empty role)) [
      | inl e ↦ rw e c
      | inr e ↦ elim (Bool-cases (text_eq role system_admin)) [
        | inl f ↦ rw (e, f) c
        | inr f ↦ rw (e, f) (require-IsCoherent now tenant role required st c)
      ]
    ]

can_activate-IsCoherent :
    (now : ℕ) (required : List Text) (user : Option (ℕ × Text)) (st : State)
    → IsCoherent st
    → IsCoherent (can_activate now required user st).1
unfolding can_activate
can_activate-IsCoherent now required user st c = elim (Bool-cases (is_empty required)) [
  | inl e ↦ rw e c
  | inr e ↦ rw e (guard_user-IsCoherent now required user st c)
]

get-IsCoherent : (now tenant : ℕ) (st : State) → IsCoherent st → IsCoherent (get now tenant st).1
unfolding get
get-IsCoherent now tenant st c = elim (Bool-cases (is_empty (keep (of_tenant tenant) st.rows))) [
  | inr e ↦ rw e c
  | inl e ↦
      let n : keep (of_tenant tenant) st.rows ≡ [] = ground arith in
      rw e (
        All-imp (IsTrue st.rows) (IsTrue (seeds now tenant default_matrix ++ st.rows)) st.cache
          (λ (a : Entry) h.
            h ∙ ap to_set (sym (seeded-effective now st.rows tenant n a.tenant_id a.role)))
          c)
]

save_row-IsCoherent :
    (now tenant : ℕ) (role : Text) (ps : List Text) (o : Option RolePermission) (st : State)
    → IsCoherent st
    → IsCoherent (invalidate tenant (save_row now tenant role ps o st))
save_row-IsCoherent now tenant role ps none st c =
    invalidate-IsCoherent tenant st (new_row now tenant role ps ∷ st.rows) c
      (λ other key h. find-cons (new_row now tenant role ps) st.rows other key h)
save_row-IsCoherent now tenant role ps (some r) st c =
    invalidate-IsCoherent tenant st
      (change (is_row tenant role)
        (λ (x : RolePermission). record x { permissions = ps; updated_at = now }) st.rows)
      c (λ other key h. find-change st.rows now tenant role ps other key h)

check_actor-IsCoherent :
    (now tenant : ℕ) (actor : Option Text) (previous clean : List Text) (st : State)
    → IsCoherent st
    → IsCoherent (check_actor now tenant actor previous clean st).1
check_actor-IsCoherent now tenant none previous clean st c = c
check_actor-IsCoherent now tenant (some actor) previous clean st c =
    elim (Bool-cases (text_eq actor system_admin)) [
      | inl e ↦ rw e c
      | inr e ↦ rw e ((perms_for_role-Looked now tenant actor st c).coherent)
    ]

write_role-IsCoherent :
    (now tenant : ℕ) (role : Text) (clean : List Text) (o : Option RolePermission)
    (r : Result (Unit {0}) × State)
    → IsCoherent r.1
    → IsCoherent (write_role now tenant role clean o r).1
write_role-IsCoherent now tenant role clean o (err e, st) c = c
write_role-IsCoherent now tenant role clean o (ok u, st) c =
    save_row-IsCoherent now tenant role clean o st c

set_role-IsCoherent :
    (now tenant : ℕ) (role : Text) (ps : List Text) (v : Option ℕ) (actor : Option Text)
    (st : State)
    → IsCoherent st
    → IsCoherent (set_role now tenant role ps v actor st).1
unfolding set_role
set_role-IsCoherent now tenant role ps v actor st c =
    let clean = clean_keys [] ps in
    let old = find_row st.rows tenant role in
    elim (Bool-cases (text_eq role system_admin)) [
      | inl e ↦ rw e c
      | inr e ↦ elim (Bool-cases (stale v old)) [
        | inl f ↦ rw (e, f) c
        | inr f ↦
            rw (e, f)
              (write_role-IsCoherent now tenant role clean old
                (check_actor now tenant actor (previous_of old) clean st)
                (check_actor-IsCoherent now tenant actor (previous_of old) clean st c))
      ]
    ]

created_state :
    (now tenant : ℕ) (role : Text) (st : State) {name : Text} {st' : State}
    → create_role now tenant role st ≡ ok (name, st')
    → invalidate tenant (record st { rows = new_row now tenant (trim role) [] ∷ st.rows }) ≡ st'
unfolding create_role
created_state now tenant role st e = ground arith

create_role-IsCoherent :
    (now tenant : ℕ) (role : Text) (st : State)
    → IsCoherent st
    → IsCoherent (after_create st (create_role now tenant role st))
create_role-IsCoherent now tenant role st c = elim (Result-cases (create_role now tenant role st)) [
  | inr (x, e) ↦ rw e c
  | inl ((name, st'), e) ↦
      let r = new_row now tenant (trim role) [] in
      rw e (
        subst IsCoherent (created_state now tenant role st e) (
          invalidate-IsCoherent tenant st (r ∷ st.rows) c
            (λ other key h. find-cons r st.rows other key h)))
]

deleted_state :
    (tenant : ℕ) (role : Text) (st : State) {st' : State}
    → delete_role tenant role st ≡ ok st'
    → invalidate tenant
        (record st { rows = keep (λ (r : RolePermission). not (is_row tenant role r)) st.rows })
      ≡ st'
unfolding delete_role
deleted_state tenant role st e = ground arith

delete_role-IsCoherent :
    (tenant : ℕ) (role : Text) (st : State)
    → IsCoherent st
    → IsCoherent (after_delete st (delete_role tenant role st))
delete_role-IsCoherent tenant role st c = elim (Result-cases (delete_role tenant role st)) [
  | inr (x, e) ↦ rw e c
  | inl (st', e) ↦
      let rows = keep (λ (r : RolePermission). not (is_row tenant role r)) st.rows in
      rw e (
        subst IsCoherent (deleted_state tenant role st e) (
          invalidate-IsCoherent tenant st rows c
            (λ other key h. find-keep st.rows tenant role other key h)))
]

drop_local-IsCoherent : (t : Option ℕ) (st : State) → IsCoherent st → IsCoherent (drop_local t st)
unfolding drop_local
drop_local-IsCoherent none st c = tt
drop_local-IsCoherent (some tenant) st c =
    All-keep (IsTrue st.rows) (IsTrue st.rows) (λ (e : Entry). not (e.tenant_id == tenant)) st.cache
      (λ a e h. h) c

apply-IsCoherent : (o : Op) (st : State) → IsCoherent st → IsCoherent (apply o st)
unfolding apply
apply-IsCoherent (checks now t r p) st c = has_permission-IsCoherent now t r p st c
apply-IsCoherent (guards now required user) st c = can_activate-IsCoherent now required user st c
apply-IsCoherent (gets now t) st c = get-IsCoherent now t st c
apply-IsCoherent (sets now t r ps v a) st c = set_role-IsCoherent now t r ps v a st c
apply-IsCoherent (creates now t r) st c = create_role-IsCoherent now t r st c
apply-IsCoherent (deletes t r) st c = delete_role-IsCoherent t r st c
apply-IsCoherent (drops t) st c = drop_local-IsCoherent t st c

pub run-IsCoherent : (os : List Op) (st : State) → IsCoherent st → IsCoherent (run os st)
unfolding run
run-IsCoherent [] st c = c
run-IsCoherent (o ∷ os) st c = run-IsCoherent os (apply o st) (apply-IsCoherent o st c)

-- After any sequence of lookups, guarded requests, first visits of the matrix, edits, new and deleted roles and dropped
-- entries, from an empty cache and at any times, a lookup through the cache answers what the tables answer without it.
pub run-has_permission :
    (os : List Op) (st : State) (now tenant : ℕ) (role permission : Text)
    → st.cache ≡ []
    → (has_permission now tenant role permission (run os st)).0
      ≡ includes_text (effective (run os st).rows tenant role) permission
run-has_permission os st now tenant role permission e =
    let c : IsCoherent st = subst (All (IsTrue st.rows)) (sym e) tt in
    (has_permission-effective now tenant role permission (run os st) (run-IsCoherent os st c)).0
