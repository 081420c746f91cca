-- ===== src/Permissions/Authority.antt =====
-- permissions.service.ts: nobody grants what they do not hold; permissions.guard.ts: who passes.
use booking_system.Base.{
  ℕ, ◌≡◌, refl, sym, ap, subst, ◌∙◌, ◌⊎◌, inl, inr, Bool, true, false, not, ◌&&◌, ◌||◌, Option,
  some, List, [], ◌∷◌, Text, text_eq, text_eq_iff, includes_text, is_empty, all, keep, change,
  Option-cases, ==_refl, ◌==◌, if◌then◌else◌, ok, err, forbidden, arith, Bool-cases,
}
use booking_system.Common.Roles.{system_admin}
use booking_system.Permissions.Service.{
  RolePermission, State, SetRole, find_row, effective, escalated, perms_for_role, has_permission,
  set_role, clean_keys, is_row, save_row, invalidate, drop_local, previous_of, stale, require,
  can_activate,
}
use booking_system.Permissions.Sets.{includes_text-to_set}
use booking_system.Permissions.Coherence.{IsCoherent, perms_for_role-Looked}
use booking_system.Permissions.History.{has_permission-effective, has_permission-IsCoherent}

keep-none :
    (q : Text → Bool) (xs : List Text) (p : Text)
    → is_empty (keep q xs) ≡ true
    → includes_text xs p ≡ true
    → q p ≡ false
keep-none q [] p h i = cc
keep-none q (x ∷ xs) p h i = elim (Bool-cases (q x)) [
  | inl e ↦ absurd (ground arith)
  | inr e ↦ elim (Bool-cases (text_eq x p)) [
    | inl f ↦ subst (λ y. q y ≡ false) ((text_eq_iff x p).0 f) e
    | inr f ↦ keep-none q xs p (ground arith) (ground arith)
  ]
]

find-changed :
    (rows : List RolePermission) (now tenant : ℕ) (role : Text) (ps : List Text)
    (r : RolePermission)
    → find_row rows tenant role ≡ some r
    → previous_of (
        find_row
          (change
            (is_row tenant role)
            (λ (x : RolePermission). record x { permissions = ps; updated_at = now })
            rows)
          tenant
          role)
      ≡ ps
find-changed [] now tenant role ps r h = cc
find-changed (x ∷ xs) now tenant role ps r h = elim (Bool-cases (is_row tenant role x)) [
  | inl e ↦ rw (e, e) refl
  | inr e ↦ rw (e, e) (find-changed xs now tenant role ps r (ground arith))
]

-- The row that an edit leaves.
saved_row :
    (now tenant : ℕ) (role : Text) (ps : List Text) (st st' : State)
    → st'.rows ≡ st.rows
    → previous_of
        (find_row (save_row now tenant role ps (find_row st.rows tenant role) st').rows tenant role)
      ≡ ps
saved_row now tenant role ps st st' e = elim (Option-cases (find_row st.rows tenant role)) [
  | inl n ↦ let t = (text_eq_iff role role).1 refl in let q = ==_refl tenant in rw (n, t, q) refl
  | inr (r, f) ↦ rw (f, e) (find-changed st.rows now tenant role ps r f)
]

-- What an edit that goes through was checked for, and the row that it leaves.
record IsEdit (now tenant : ℕ) (role : Text) (ps : List Text) (v : Option ℕ) (actor : Text)
    (st : State) : Type 0 where
  next :
      previous_of (find_row (set_role now tenant role ps v (some actor) st).1.rows tenant role)
      ≡ clean_keys [] ps
  none_escalated :
      is_empty (
        escalated
          (perms_for_role now tenant actor st).0
          (previous_of (find_row st.rows tenant role))
          (clean_keys [] ps))
      ≡ true

set_role_ok :
    (now tenant : ℕ) (role : Text) (ps : List Text) (v : Option ℕ) (actor : Text) (st : State)
    {res : SetRole}
    → IsCoherent st
    → text_eq actor system_admin ≡ false
    → (set_role now tenant role ps v (some actor) st).0 ≡ ok res
    → IsEdit now tenant role ps v actor st
unfolding set_role invalidate drop_local
set_role_ok now tenant role ps v actor st {res} c a h =
    let clean = clean_keys [] ps in
    let old = find_row st.rows tenant role in
    let looked = perms_for_role now tenant actor st in
    elim (Bool-cases (text_eq role system_admin)) [
      | inl e ↦ absurd (ground arith)
      | inr e ↦ elim (Bool-cases (stale v old)) [
        | inl f ↦ absurd (ground arith)
        | inr f ↦ elim (Bool-cases (is_empty (escalated looked.0 (previous_of old) clean))) [
          | inr g ↦ absurd (let h' = rw (e, f, a, g) at h in cc)
          | inl g ↦ record {
            next =
                rw (e, f, a, g)
                  (saved_row now tenant role clean st looked.1
                    (perms_for_role-Looked now tenant actor st c).rows);
            none_escalated = g;
          }
        ]
      ]
    ]

-- Each permission that the row of a role has after an edit by someone other than a System Admin, it had before, or the
-- editor's role holds it, where the cache agrees with the tables.
pub set_role-not_escalated :
    (now tenant : ℕ) (role : Text) (ps : List Text) (v : Option ℕ) (actor : Text) (st : State)
    (res : SetRole) (p : Text)
    → IsCoherent st
    → text_eq actor system_admin ≡ false
    → (set_role now tenant role ps v (some actor) st).0 ≡ ok res
    → includes_text
        (previous_of (find_row (set_role now tenant role ps v (some actor) st).1.rows tenant role))
        p
      ≡ true
    → (includes_text (previous_of (find_row st.rows tenant role)) p ≡ true)
      ⊎ (includes_text (effective st.rows tenant actor) p ≡ true)
unfolding escalated
set_role-not_escalated now tenant role ps v actor st res p c a h i =
    let e = set_role_ok now tenant role ps v actor st c a h in
    let old = previous_of (find_row st.rows tenant role) in
    let held = (perms_for_role now tenant actor st).0 in
    let l = perms_for_role-Looked now tenant actor st c in
    let k =
      keep-none (λ q. not (includes_text old q) && not (includes_text held q)) (clean_keys [] ps) p
        e.none_escalated (subst (λ xs. includes_text xs p ≡ true) e.next i) in
    elim (Bool-cases (includes_text old p)) [
      | inl f ↦ inl f
      | inr f ↦ inr (
          sym (includes_text-to_set (effective st.rows tenant actor) p)
          ∙ sym (ap (λ xs. includes_text xs p) l.perms)
          ∙ (ground arith))
    ]

require-effective :
    (now tenant : ℕ) (role : Text) (ps : List Text) (st : State)
    → IsCoherent st
    → (require now tenant role ps st).0
      ≡ (if all (includes_text (effective st.rows tenant role)) ps then ok tt else err forbidden)
unfolding require
require-effective now tenant role [] st c = refl
require-effective now tenant role (p ∷ ps) st c =
    let (e, rows) = has_permission-effective now tenant role p st c in
    let st' = (has_permission now tenant role p st).1 in
    let r =
      require-effective now tenant role ps st' (has_permission-IsCoherent now tenant role p st c) in
    elim (Bool-cases (includes_text (effective st.rows tenant role) p)) [
      | inr f ↦ let g = e ∙ f in rw (g, f) refl
      | inl f ↦
          let g = e ∙ f in
          rw (g, f)
            (r
              ∙ ap
                  (λ (x : List RolePermission).
                    if all (includes_text (effective x tenant role)) ps
                    then ok tt
                    else err forbidden)
                  rows)
    ]

-- Where the cache agrees with the tables, the guard lets a user with a tenant and a role through exactly where the route requires nothing, the
-- role is System Admin, or the stored or default permissions of the role include each one required; else it answers 403.
pub can_activate-effective :
    (now tenant : ℕ) (role : Text) (required : List Text) (st : State)
    → IsCoherent st
    → (tenant == 0 || is_empty role) ≡ false
    → (can_activate now required (some (tenant, role)) st).0 ≡ (
        if is_empty required
          || text_eq role system_admin
          || all (includes_text (effective st.rows tenant role)) required
        then ok tt
        else err forbidden)
unfolding can_activate
can_activate-effective now tenant role required st c u = elim (Bool-cases (is_empty required)) [
  | inl e ↦ rw e refl
  | inr e ↦ elim (Bool-cases (text_eq role system_admin)) [
    | inl f ↦ rw (e, u, f) refl
    | inr f ↦ rw (e, u, f) (require-effective now tenant role required st c)
  ]
]
