-- ===== src/Approvals/Decide/Liveness.antt =====
-- A decision that is due goes through: `decide` of approvals.service.ts.
use booking_system.Base.{
  ℕ, ◌≡◌, inl, inr, false, ◌&&◌, some, List, Text, trim, is_empty, get_elem?, ok, arith,
  Option-cases, Result-cases,
}
use booking_system.Store.Approval.{ApprovalStep, Decision}
use booking_system.Store.Db.{Db}
use booking_system.Approvals.Eligibility.{AuthUser, first_actionable_index}
use booking_system.Approvals.Eligibility.Progress.{CanAct, first_actionable_index-Choice}
use booking_system.Approvals.Decide.{
  lock_chain, chain_rule, chosen_step, decide_chain, decide, is_reject,
}

chosen_step-eq-ok :
    (db : Db) (chain : List ApprovalStep) (u : AuthUser) (i : ℕ)
    → CanAct chain (chain_rule db chain) u i
    → (s : ApprovalStep) × (chosen_step db chain u ≡ ok s)
unfolding chosen_step
chosen_step-eq-ok db chain u i can =
    let f = first_actionable_index-Choice chain (chain_rule db chain) u in
    elim (Option-cases (first_actionable_index chain (chain_rule db chain) u)) [
      | inl e ↦ absurd ((rw e at f) i can)
      | inr (j, e) ↦
          let c : CanAct chain (chain_rule db chain) u j = (rw e at f).0 in
          let g : get_elem? chain j ≡ some c.0 = c.1 in (c.0, ground arith)
    ]

-- Where some step of a booking's chain is pending, has its dependencies done and admits the user, the
-- user's decision goes through, a rejection if it gives a reason.
pub decide-eq-ok :
    (db : Db) (now : ℕ) (u : AuthUser) (id : ℕ) (d : Decision) (reason : Text) (i : ℕ)
    → is_empty (lock_chain db u.tenant_id id) ≡ false
    → CanAct (lock_chain db u.tenant_id id) (chain_rule db (lock_chain db u.tenant_id id)) u i
    → (is_reject d && is_empty (trim reason)) ≡ false
    → (db' : Db) × (decide db now u id (record { status = some d; reason = reason }) ≡ ok db')
unfolding decide decide_chain
decide-eq-ok db now u id d reason i n can r =
    let (s, q) = chosen_step-eq-ok db (lock_chain db u.tenant_id id) u i can in
    elim (Result-cases (decide db now u id (record { status = some d; reason = reason }))) [
      | inl x ↦ x
      | inr (e, z) ↦ absurd (ground arith)
    ]
