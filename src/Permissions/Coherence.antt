-- ===== src/Permissions/Coherence.antt =====
-- permissions.service.ts: the cache never disagrees with the tables.
use booking_system.Base.{
  ℕ, ◌≡◌, refl, sym, ap, ◌∙◌, ◌⊎◌, inl, inr, true, false, not, Option, none, some, List, [], ◌∷◌,
  ◌++◌, Text, text_eq, text_eq_iff, find, find-In, ==_refl, keep, change, ◌==◌, ltb, All, All-keep,
  All-lookup, arith, Bool-cases, Option-cases,
}
use booking_system.Permissions.Catalog.{default_matrix, matrix_role}
use booking_system.Permissions.Service.{
  RolePermission, Entry, State, is_row, is_entry, to_set, granted, find_row, effective, load,
  perms_for_role, drop_local, invalidate, seeds, of_tenant, new_row,
}

-- An entry holds what the tables give for its role.
abbrev pub IsTrue : List RolePermission → Entry → Type 0
IsTrue rows e = e.perms ≡ to_set (effective rows e.tenant_id e.role)

abbrev pub IsCoherent : State → Type 0
IsCoherent st = All (IsTrue st.rows) st.cache

is_entry-key :
    (tenant : ℕ) (role : Text) (e : Entry)
    → is_entry tenant role e ≡ true
    → (e.tenant_id ≡ tenant) × (e.role ≡ role)
is_entry-key tenant role e h = (ground arith, (text_eq_iff e.role role).0 (ground arith))

load-IsCoherent :
    (now tenant : ℕ) (role : Text) (st : State)
    → IsCoherent st
    → IsCoherent (load now tenant role st).1
unfolding load
load-IsCoherent now tenant role st c = (
  refl,
  All-keep (IsTrue st.rows) (IsTrue st.rows) (λ (x : Entry). not (is_entry tenant role x)) st.cache
      (λ a e h. h) c,
)

-- What a lookup answers and leaves, where the cache is coherent.
pub record Looked (st : State) (tenant : ℕ) (role : Text) (r : List Text × State) : Type 0 where
  pub perms : r.0 ≡ to_set (effective st.rows tenant role)
  pub rows : r.1.rows ≡ st.rows
  pub coherent : IsCoherent r.1

load-Looked :
    (now tenant : ℕ) (role : Text) (st : State)
    → IsCoherent st
    → Looked st tenant role (load now tenant role st)
unfolding load
load-Looked now tenant role st c = record {
  perms = refl;
  rows = refl;
  coherent = load-IsCoherent now tenant role st c;
}

pub perms_for_role-Looked :
    (now tenant : ℕ) (role : Text) (st : State)
    → IsCoherent st
    → Looked st tenant role (perms_for_role now tenant role st)
unfolding perms_for_role
perms_for_role-Looked now tenant role st c =
    elim (Option-cases (find (is_entry tenant role) st.cache)) [
      | inl e ↦ rw e (load-Looked now tenant role st c)
      | inr (x, e) ↦ elim (Bool-cases (ltb now x.expires_at)) [
        | inr f ↦ rw (e, f) (load-Looked now tenant role st c)
        | inl f ↦
            let (i, k) = find-In (is_entry tenant role) st.cache e in
            let (t, r) = is_entry-key tenant role x k in
            let h = All-lookup (IsTrue st.rows) st.cache c i in
            rw (e, f)
              (record {
                perms =
                    h
                    ∙ ap (λ n. to_set (effective st.rows n x.role)) t
                    ∙ ap (λ s. to_set (effective st.rows tenant s)) r;
                rows = refl;
                coherent = c;
              })
      ]
    ]

-- A change of one tenant's rows, with that tenant's entries dropped.
pub invalidate-IsCoherent :
    (tenant : ℕ) (st : State) (rows : List RolePermission)
    → IsCoherent st
    → ((other : ℕ) (role : Text)
        → other == tenant ≡ false
        → find_row rows other role ≡ find_row st.rows other role)
    → IsCoherent (invalidate tenant (record st { rows = rows }))
unfolding invalidate drop_local effective
invalidate-IsCoherent tenant st rows c same =
    All-keep (IsTrue st.rows) (IsTrue rows) (λ (e : Entry). not (e.tenant_id == tenant)) st.cache
      (λ a e h.
        h ∙ ap to_set (ap (λ o. granted o a.role) (sym (same a.tenant_id a.role (ground arith)))))
      c

-- What the writes do to the rows of another tenant.
pub find-cons :
    (r : RolePermission) (rows : List RolePermission) (other : ℕ) (role : Text)
    → other == r.tenant_id ≡ false
    → find_row (r ∷ rows) other role ≡ find_row rows other role
find-cons r rows other role h = ground arith

pub find-keep :
    (rows : List RolePermission) (tenant : ℕ) (key : Text) (other : ℕ) (role : Text)
    → other == tenant ≡ false
    → find_row (keep (λ (r : RolePermission). not (is_row tenant key r)) rows) other role
      ≡ find_row rows other role
find-keep [] tenant key other role h = refl
find-keep (x ∷ xs) tenant key other role h = ground (arith, find-keep xs tenant key other role h)

pub find-change :
    (rows : List RolePermission) (now tenant : ℕ) (key : Text) (ps : List Text) (other : ℕ)
    (role : Text)
    → other == tenant ≡ false
    → find_row
        (change
          (is_row tenant key)
          (λ (x : RolePermission). record x { permissions = ps; updated_at = now })
          rows)
        other
        role
      ≡ find_row rows other role
find-change [] now tenant key ps other role h = refl
find-change (x ∷ xs) now tenant key ps other role h =
    ground (arith, find-change xs now tenant key ps other role h)

-- A seeded role has the default permissions, and the rest is as before.
record Seeded (rows : List RolePermission) (m : List (Text × List Text)) (tenant : ℕ) (role : Text)
    (o : Option RolePermission) : Type 0 where
  found :
      ((r : RolePermission) × (o ≡ some r) × (matrix_role m role ≡ some r.permissions))
      ⊎ ((o ≡ find_row rows tenant role) × (matrix_role m role ≡ none))

seeds-Seeded :
    (now : ℕ) (rows : List RolePermission) (m : List (Text × List Text)) (tenant : ℕ) (role : Text)
    → Seeded rows m tenant role (find_row (seeds now tenant m ++ rows) tenant role)
unfolding matrix_role
seeds-Seeded now rows [] tenant role = record { found = inr (refl, refl) }
seeds-Seeded now rows ((key, ps) ∷ m) tenant role = elim (Bool-cases (text_eq key role)) [
  | inl e ↦ record {
    found = inl (new_row now tenant key ps, (let t = ==_refl tenant in ground arith), ground arith);
  }
  | inr e ↦
      let r = seeds-Seeded now rows m tenant role in
      let same : find_row (seeds now tenant ((key, ps) ∷ m) ++ rows) tenant role
          ≡ find_row (seeds now tenant m ++ rows) tenant role =
        ground arith in
      elim r.found [
        | inl (x, f, g) ↦ record { found = inl (x, same ∙ f, ground arith) }
        | inr (f, g) ↦ record { found = inr (same ∙ f, ground arith) }
      ]
]

seeds-other :
    (now : ℕ) (rows : List RolePermission) (m : List (Text × List Text)) (tenant other : ℕ)
    (role : Text)
    → other == tenant ≡ false
    → find_row (seeds now tenant m ++ rows) other role ≡ find_row rows other role
seeds-other now rows [] tenant other role h = refl
seeds-other now rows ((key, ps) ∷ m) tenant other role h =
    ground (arith, seeds-other now rows m tenant other role h)

none_of_tenant :
    (rows : List RolePermission) (tenant : ℕ) (role : Text)
    → keep (of_tenant tenant) rows ≡ []
    → find_row rows tenant role ≡ none
none_of_tenant [] tenant role h = refl
none_of_tenant (x ∷ xs) tenant role h = elim (Bool-cases (of_tenant tenant x)) [
  | inl e ↦ absurd (ground arith)
  | inr e ↦ let r = none_of_tenant xs tenant role (ground arith) in ground arith
]

-- Seeding the defaults changes no role's permissions.
pub seeded-effective :
    (now : ℕ) (rows : List RolePermission) (tenant : ℕ)
    → keep (of_tenant tenant) rows ≡ []
    → (other : ℕ) (role : Text)
    → effective (seeds now tenant default_matrix ++ rows) other role ≡ effective rows other role
unfolding effective
seeded-effective now rows tenant h other role = elim (Bool-cases (other == tenant)) [
  | inr e ↦ ap (λ o. granted o role) (seeds-other now rows default_matrix tenant other role e)
  | inl e ↦
      let q : other ≡ tenant = ground arith in
      let n = none_of_tenant rows tenant role h in
      let s = seeds-Seeded now rows default_matrix tenant role in
      rw (q, n) (elim s.found [ inl (r, f, g) ↦ rw (f, g) refl | inr (f, g) ↦ rw (f ∙ n, g) refl ])
]
