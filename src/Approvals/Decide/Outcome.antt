-- ===== src/Approvals/Decide/Outcome.antt =====
-- What a decision on a chain does: `decide` and `commitStepDecision` of approvals.service.ts.
use booking_system.Base.{
  ℕ, ◌≡◌, refl, sym, subst, ap, ◌∙◌, ◌⊎◌, inl, inr, true, false, ◌&&◌, ◌||◌, Option, none, some,
  List, [], ◌∷◌, Text, ◌==◌, leb, is_empty, all-true, keep, change, get_elem?, ok, In, In-change,
  arith, Bool-cases, Option-cases, Result-cases, keep-In, change-In,
}
use booking_system.Store.Booking.{Booking}
use booking_system.Store.Approval.{ApprovalStep, Decision, approve, reject, is_done}
use booking_system.Store.Outbox.{Event}
use booking_system.Approvals.Eligibility.Progress.{IsFirst, first_actionable_index-Choice}
use booking_system.Store.Db.{Db}
use booking_system.Approvals.Eligibility.{AuthUser, first_actionable_index}
use booking_system.Approvals.Decide.{
  insert_step, by_index, lock_chain, confirmed_booking, decided_step, others_done, save_step,
  commit_step_decision, record_approval_audit, notify_decision, notify_opt, chain_rule, chosen_step,
  decide_chain, decide, progress_event, Progress,
}

insert_step-In :
    (a s : ApprovalStep) (cs : List ApprovalStep) → In a (s ∷ cs) → In a (insert_step s cs)
unfolding insert_step
insert_step-In a s [] i = i
insert_step-In a s (c ∷ cs) i = elim (Bool-cases (leb s.step_index c.step_index)) [
  | inl e ↦ rw e i
  | inr e ↦ rw e (elim i [
    | inl q ↦ inr (insert_step-In a s cs (inl q))
    | inr j ↦ elim j [ inl q ↦ inl q | inr k ↦ inr (insert_step-In a s cs (inr k)) ]
  ])
]

by_index-In : (a : ApprovalStep) (ss : List ApprovalStep) → In a ss → In a (by_index ss)
unfolding by_index
by_index-In a [] i = i
by_index-In a (s ∷ ss) (inl q) = insert_step-In a s (by_index ss) (inl q)
by_index-In a (s ∷ ss) (inr i) = insert_step-In a s (by_index ss) (inr (by_index-In a ss i))

-- The locked chain misses no step of the booking.
lock_chain-In :
    (db : Db) (tenant id : ℕ) (s : ApprovalStep)
    → In s db.steps
    → s.tenant_id ≡ tenant
    → s.booking_id ≡ id
    → In s (lock_chain db tenant id)
unfolding lock_chain
lock_chain-In db tenant id s i t b =
    by_index-In s
      (keep (λ (x : ApprovalStep). x.tenant_id == tenant && x.booking_id == id) db.steps)
      (keep-In (λ (x : ApprovalStep). x.tenant_id == tenant && x.booking_id == id) db.steps i
        (ground arith))

-- Each step of the booking is approved or skipped.
abbrev pub ChainDone : Db → ℕ → ℕ → Type 0
ChainDone db tenant id =
    (s : ApprovalStep)
    → In s db.steps
    → s.tenant_id ≡ tenant
    → s.booking_id ≡ id
    → is_done s.status ≡ true

saved-ChainDone :
    (db : Db) (tenant id : ℕ) (s d : ApprovalStep)
    → others_done (lock_chain db tenant id) s ≡ true
    → d.id ≡ s.id
    → is_done d.status ≡ true
    → ChainDone (save_step d db) tenant id
unfolding others_done
saved-ChainDone db tenant id s d h e k x i t b =
    let (c, ci, q) = In-change (λ (y : ApprovalStep). y.id == d.id) (λ _. d) db.steps i in
    elim q [
      | inl (m, w) ↦ subst (λ (y : ApprovalStep). is_done y.status ≡ true) (sym w) k
      | inr (m, w) ↦
          let g : is_done c.status ≡ true =
            other c ci m (ap (λ (y : ApprovalStep). y.tenant_id) (sym w) ∙ t)
              (ap (λ (y : ApprovalStep). y.booking_id) (sym w) ∙ b) in
          subst (λ (y : ApprovalStep). is_done y.status ≡ true) (sym w) g
    ]
  where
    other :
        (c : ApprovalStep)
        → In c db.steps
        → (c.id == d.id) ≡ false
        → c.tenant_id ≡ tenant
        → c.booking_id ≡ id
        → is_done c.status ≡ true
    other c ci m t b =
        let r =
          all-true (λ (x : ApprovalStep). x.id == s.id || is_done x.status)
            (lock_chain db tenant id) h (lock_chain-In db tenant id c ci t b) in
        ground arith

pub notify_decision-rows :
    (db : Db) (tenant id : ℕ) (e : Event)
    → ((notify_decision db tenant id e).bookings ≡ db.bookings)
      × ((notify_decision db tenant id e).steps ≡ db.steps)
unfolding notify_decision
notify_decision-rows db tenant id e = (ground arith, ground arith)

notify_opt-rows :
    (db : Db) (tenant id : ℕ) (e : Option Event)
    → ((notify_opt db tenant id e).bookings ≡ db.bookings)
      × ((notify_opt db tenant id e).steps ≡ db.steps)
notify_opt-rows db tenant id none = (refl, refl)
notify_opt-rows db tenant id (some e) = notify_decision-rows db tenant id e

-- The decision on the chosen step leaves the bookings and the steps that the commit leaves.
module _ (db : Db) (now : ℕ) (u : AuthUser) (id : ℕ) (steps : List ApprovalStep) (d : Decision)
    (reason : Text) (s : ApprovalStep) where
  abbrev committed : Db × Progress
  committed = commit_step_decision db u.tenant_id id steps s d reason (some u.id) now

  decide_chain-rows :
      (db' : Db)
      → chosen_step db steps u ≡ ok s
      → decide_chain db now u id steps d reason ≡ ok db'
      → (db'.bookings ≡ committed.0.bookings) × (db'.steps ≡ committed.0.steps)
  unfolding decide_chain record_approval_audit
  decide_chain-rows db' c h =
      let a = record_approval_audit committed.0 u.tenant_id id (some u.id) d reason in
      let r = notify_opt-rows a u.tenant_id id (progress_event committed.1) in
      let e : notify_opt a u.tenant_id id (progress_event committed.1) ≡ db' = ground arith in
      (ap (λ (x : Db). x.bookings) (sym e) ∙ r.0, ap (λ (x : Db). x.steps) (sym e) ∙ r.1)

-- A decision on a booking with a chain goes to its chain.
decide-chain :
    (db : Db) (now : ℕ) (u : AuthUser) (id : ℕ) (d : Decision) (reason : Text) (db' : Db)
    → is_empty (lock_chain db u.tenant_id id) ≡ false
    → decide db now u id (record { status = some d; reason = reason }) ≡ ok db'
    → decide_chain db now u id (lock_chain db u.tenant_id id) d reason ≡ ok db'
unfolding decide
decide-chain db now u id d reason db' n h = ground arith

chosen_step-some :
    (db : Db) (now : ℕ) (u : AuthUser) (id : ℕ) (steps : List ApprovalStep) (d : Decision)
    (reason : Text) (db' : Db)
    → decide_chain db now u id steps d reason ≡ ok db'
    → (s : ApprovalStep) × (chosen_step db steps u ≡ ok s)
unfolding decide_chain
chosen_step-some db now u id steps d reason db' h = elim (Result-cases (chosen_step db steps u)) [
  | inl x ↦ x
  | inr (e, q) ↦ absurd (ground arith)
]

chosen_step-IsFirst :
    (db : Db) (chain : List ApprovalStep) (u : AuthUser) (s : ApprovalStep)
    → chosen_step db chain u ≡ ok s
    → (i : ℕ) × IsFirst chain (chain_rule db chain) u i × (get_elem? chain i ≡ some s)
unfolding chosen_step
chosen_step-IsFirst db chain u s h =
    let f = first_actionable_index-Choice chain (chain_rule db chain) u in
    elim (Option-cases (first_actionable_index chain (chain_rule db chain) u)) [
      | inl e ↦ absurd (ground arith)
      | inr (i, e) ↦
          let g : get_elem? chain i ≡ some s = elim (Option-cases (get_elem? chain i)) [
            | inl z ↦ absurd (ground arith)
            | inr (x, z) ↦ ground arith
          ] in
          (i, (rw e at f), g)
    ]

commit-steps :
    (db : Db) (now : ℕ) (u : AuthUser) (id : ℕ) (chain : List ApprovalStep) (d : Decision)
    (reason : Text) (s : ApprovalStep)
    → (commit_step_decision db u.tenant_id id chain s d reason (some u.id) now).0.steps
      ≡ change
          (λ (x : ApprovalStep). x.id == s.id)
          (λ _. decided_step s d reason (some u.id) now)
          db.steps
unfolding commit_step_decision
commit-steps db now u id chain approve reason s = ground arith
commit-steps db now u id chain reject reason s = refl

-- Where a booking has a chain and a decision on it goes through, the step that it is written to is
-- pending, its dependencies are done, and the user may
-- decide it: the first such step of the chain. No other step changes.
pub decide-authorised :
    (db : Db) (now : ℕ) (u : AuthUser) (id : ℕ) (d : Decision) (reason : Text) (db' : Db)
    → is_empty (lock_chain db u.tenant_id id) ≡ false
    → decide db now u id (record { status = some d; reason = reason }) ≡ ok db'
    → (i : ℕ) × (s : ApprovalStep) × IsFirst
        (lock_chain db u.tenant_id id)
        (chain_rule db (lock_chain db u.tenant_id id))
        u
        i
      × (get_elem? (lock_chain db u.tenant_id id) i ≡ some s)
      × (db'.steps
          ≡ change
              (λ (x : ApprovalStep). x.id == s.id)
              (λ _. decided_step s d reason (some u.id) now)
              db.steps)
decide-authorised db now u id d reason db' n h =
    let chain = lock_chain db u.tenant_id id in
    let c = decide-chain db now u id d reason db' n h in
    let (s, q) = chosen_step-some db now u id chain d reason db' c in
    let (i, f, g) = chosen_step-IsFirst db chain u s q in
    let r = decide_chain-rows db now u id chain d reason s db' q c in
    (i, s, f, g, r.1 ∙ commit-steps db now u id chain d reason s)

-- Where a booking has a chain and an approval of it goes through, either the booking is confirmed and
-- each step of its chain is then approved or skipped, or all bookings are as they were.
pub decide-confirms :
    (db : Db) (now : ℕ) (u : AuthUser) (id : ℕ) (reason : Text) (db' : Db)
    → is_empty (lock_chain db u.tenant_id id) ≡ false
    → decide db now u id (record { status = some approve; reason = reason }) ≡ ok db'
    → (db'.bookings ≡ db.bookings)
      ⊎ ((db'.bookings
            ≡ change
                (λ (b : Booking). b.id == id && b.tenant_id == u.tenant_id)
                confirmed_booking
                db.bookings)
          × ChainDone db' u.tenant_id id)
unfolding commit_step_decision
decide-confirms db now u id reason db' n h =
    let chain = lock_chain db u.tenant_id id in
    let c = decide-chain db now u id approve reason db' n h in
    let (s, q) = chosen_step-some db now u id chain approve reason db' c in
    let r = decide_chain-rows db now u id chain approve reason s db' q c in
    let saved = save_step (decided_step s approve reason (some u.id) now) db in
    elim (Bool-cases (others_done chain s)) [
      | inl o ↦
          let done =
            saved-ChainDone db u.tenant_id id s (decided_step s approve reason (some u.id) now) o
              refl refl in
          let e : db'.steps ≡ saved.steps = r.1 ∙ ground arith in
          inr (r.0 ∙ ground arith, λ x i t b. done x (subst (λ l. In x l) e i) t b)
      | inr o ↦ inl (r.0 ∙ ground arith)
    ]

-- Where an approval goes through to a step after which the chain is done, the booking is Confirmed
-- whatever its status was: one that its owner cancelled holds its slot again.
pub decide-revives :
    (db : Db) (now : ℕ) (u : AuthUser) (id : ℕ) (reason : Text) (s : ApprovalStep) (b : Booking)
    (db' : Db)
    → is_empty (lock_chain db u.tenant_id id) ≡ false
    → decide db now u id (record { status = some approve; reason = reason }) ≡ ok db'
    → chosen_step db (lock_chain db u.tenant_id id) u ≡ ok s
    → others_done (lock_chain db u.tenant_id id) s ≡ true
    → In b db.bookings
    → b.id ≡ id
    → b.tenant_id ≡ u.tenant_id
    → In (confirmed_booking b) db'.bookings
unfolding commit_step_decision
decide-revives db now u id reason s b db' n h q o i e t =
    let chain = lock_chain db u.tenant_id id in
    let c = decide-chain db now u id approve reason db' n h in
    let r = decide_chain-rows db now u id chain approve reason s db' q c in
    let rows =
      change (λ (x : Booking). x.id == id && x.tenant_id == u.tenant_id) confirmed_booking
        db.bookings in
    let k : rows ≡ db'.bookings = sym (r.0 ∙ ground arith) in
    subst (λ l. In (confirmed_booking b) l) k
      (change-In (λ (x : Booking). x.id == id && x.tenant_id == u.tenant_id) confirmed_booking
        db.bookings i (ground arith))
