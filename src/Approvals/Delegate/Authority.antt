-- ===== src/Approvals/Delegate/Authority.antt =====
-- Who may delegate an approval step, to whom, and what the delegate may do then: `delegate` of
-- approvals.service.ts.
use booking_system.Base.{
  ℕ, ◌≡◌, refl, sym, subst, ==_iff, ◌++◌, if◌then◌else◌, ◌==◌, false, inl, inr, Bool, true, ◌||◌,
  some, List, [], ◌∷◌, Text, includes, includes-append_last, is_empty, ◌&&◌, find, ok, arith,
  Bool-cases, Option-cases, Result-cases,
}
use booking_system.Common.Roles.{is_admin}
use booking_system.Store.Tenant.{User}
use booking_system.Store.Approval.{ApprovalStep, is_pending}
use booking_system.Store.Db.{Db, find_user}
use booking_system.Approvals.Grade.{grade_at_least}
use booking_system.Approvals.Eligibility.{AuthUser, can_decide_step}
use booking_system.Approvals.Decide.{lock_chain, save_step}
use booking_system.Approvals.Delegate.{
  with_approver, delegated_step, assert_eligible_delegate, delegate_step, delegate_found, delegate,
}

with_approver-adds : (ids : List ℕ) (to : ℕ) → includes (with_approver ids to) to ≡ true
with_approver-adds ids to = elim (Bool-cases (includes ids to)) [
  | inl e ↦ rw e e
  | inr e ↦ rw e (includes-append_last ids to)
]

includes-append_other :
    (ids : List ℕ) (to a : ℕ) → (a == to) ≡ false → includes (ids ++ to ∷ []) a ≡ includes ids a
includes-append_other [] to a h = ground arith
includes-append_other (x ∷ xs) to a h = ground (arith, includes-append_other xs to a h)

with_approver-other :
    (ids : List ℕ) (to a : ℕ)
    → (a == to) ≡ false
    → includes (with_approver ids to) a ≡ includes ids a
with_approver-other ids to a h = elim (Bool-cases (includes ids to)) [
  | inl e ↦ rw e refl
  | inr e ↦ rw e (includes-append_other ids to a h)
]

with_approver-some : (ids : List ℕ) (to : ℕ) → is_empty (with_approver ids to) ≡ false
with_approver-some [] to = refl
with_approver-some (x ∷ xs) to = elim (Bool-cases (includes (x ∷ xs) to)) [
  | inl e ↦ rw e refl
  | inr e ↦ rw e refl
]

-- After a delegation of a step that names an approver or a role, the delegate may decide it exactly if of the grade
-- that it asks for, and anyone else exactly if before.
pub delegated_step-can_decide :
    (s : ApprovalStep) (to from now : ℕ) (note : Text) (v : AuthUser)
    → (is_empty s.approver_ids && is_empty s.approver_role) ≡ false
    → can_decide_step (delegated_step s to from note now) v
      ≡ (if v.id == to then grade_at_least v.grade s.min_grade else can_decide_step s v)
unfolding can_decide_step
delegated_step-can_decide s to from now note v h = elim (Bool-cases (v.id == to)) [
  | inl e ↦
      let i : includes (with_approver s.approver_ids to) v.id ≡ true =
        subst (λ x. includes (with_approver s.approver_ids to) x ≡ true)
          (sym ((==_iff v.id to).0 e)) (with_approver-adds s.approver_ids to) in
      rw (e, i) refl
  | inr e ↦
      let i = with_approver-other s.approver_ids to v.id e in
      let n = with_approver-some s.approver_ids to in rw (e, i, n) (ground arith)
]

module _ (has_permission : ℕ → Text → Bool) where
  -- The target of a delegation is an active user of the tenant with the permission to decide.
  abbrev pub IsDelegate : Db → ℕ → ℕ → Type 0
  IsDelegate db tenant to =
      (t : User) × (find_user db tenant to ≡ some t)
      × (t.is_active ≡ true)
      × (has_permission tenant t.role ≡ true)

  assert_eligible_delegate-IsDelegate :
      (db : Db) (tenant to : ℕ) {x : Unit {0}}
      → assert_eligible_delegate has_permission db tenant to ≡ ok x
      → IsDelegate db tenant to
  unfolding assert_eligible_delegate
  assert_eligible_delegate-IsDelegate db tenant to h =
      elim (Option-cases (find_user db tenant to)) [
        | inl e ↦ absurd (ground arith)
        | inr (t, e) ↦ (t, e, ground arith, ground arith)
      ]

  -- A delegation of a chain's pending step goes through only for a user who may decide that step or
  -- an administrator, and for a target who is an active user of the tenant with the permission; it
  -- writes the first pending step and nothing else.
  pub delegate-authorised :
      (db : Db) (now : ℕ) (u : AuthUser) (id to : ℕ) (note : Text) (s : ApprovalStep) (db' : Db)
      → find (λ (x : ApprovalStep). is_pending x.status) (lock_chain db u.tenant_id id) ≡ some s
      → delegate has_permission db now u id to note ≡ ok db'
      → ((can_decide_step s u || is_admin u.role) ≡ true)
        × IsDelegate db u.tenant_id to
        × (db' ≡ save_step (delegated_step s to u.id note now) db)
  unfolding delegate delegate_found delegate_step
  delegate-authorised db now u id to note s db' f h =
      elim (Result-cases (assert_eligible_delegate has_permission db u.tenant_id to)) [
        | inl (x, e) ↦
            (ground arith, assert_eligible_delegate-IsDelegate db u.tenant_id to e, ground arith)
        | inr (x, e) ↦ absurd (ground arith)
      ]
