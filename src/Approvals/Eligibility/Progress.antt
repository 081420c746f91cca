-- ===== src/Approvals/Eligibility/Progress.antt =====
-- The step that a decision of a user is for: the loop of `firstActionableIndex` in
-- approvals.service.ts.
use booking_system.Base.{
  ℕ, zero, suc, ◌+◌, ◌<◌, ◌≡◌, refl, sym, subst, inl, inr, true, false, Option, none, some, List,
  [], ◌∷◌, get_elem?, In, all-true, In-all, arith, Bool-cases, Option-cases,
}
use booking_system.Store.Approval.{ApprovalRule, ApprovalStep, is_pending, is_done}
use booking_system.Approvals.Eligibility.{
  AuthUser, actionable, deps_of, deps_done, step_done, can_decide_step, first_from,
  first_actionable_index,
}

module _ (steps : List ApprovalStep) (rule : Option ApprovalRule) (u : AuthUser) where
  -- The step at `i` of the rest, `k` places on in the chain, is one the user may decide now.
  abbrev Acts : ℕ → List ApprovalStep → ℕ → Type 0
  Acts k rest i =
      (s : ApprovalStep) × (get_elem? rest i ≡ some s) × (actionable steps rule u (k + i) s ≡ true)

  later-Acts :
      (k : ℕ) (s : ApprovalStep) (rest : List ApprovalStep) (j : ℕ)
      → Acts (suc k) rest j
      → Acts k (s ∷ rest) (suc j)
  later-Acts k s rest j (x, e, a) = let q : k + suc j ≡ suc k + j = omega arith in (x, e, rw q a)

  Acts-later :
      (k : ℕ) (s : ApprovalStep) (rest : List ApprovalStep) (j : ℕ)
      → Acts k (s ∷ rest) (suc j)
      → Acts (suc k) rest j
  Acts-later k s rest j (x, e, a) = let q : suc k + j ≡ k + suc j = omega arith in (x, e, rw q a)

  first_from-none :
      (k : ℕ) (rest : List ApprovalStep)
      → first_from steps rule u k rest ≡ none
      → (j : ℕ) → ¬ Acts k rest j
  unfolding first_from
  first_from-none k [] h j (x, e, a) = cc
  first_from-none k (s ∷ rest) h zero (x, e, a) =
      let q : k + zero ≡ k = omega arith in
      let a' : actionable steps rule u k x ≡ true =
        subst (λ n. actionable steps rule u n x ≡ true) q a in
      let t : s ≡ x = ground arith in
      let b : actionable steps rule u k s ≡ true =
        subst (λ y. actionable steps rule u k y ≡ true) (sym t) a' in
      ground arith
  first_from-none k (s ∷ rest) h (suc j) c =
      first_from-none (suc k) rest (ground arith) j (Acts-later k s rest j c)

  abbrev IsFirstActs : ℕ → List ApprovalStep → ℕ → Type 0
  IsFirstActs k rest i = Acts k rest i × ((j : ℕ) → j < i → ¬ Acts k rest j)

  first_from-some :
      (k : ℕ) (rest : List ApprovalStep) {i : ℕ}
      → first_from steps rule u k rest ≡ some i
      → (j : ℕ) × (i ≡ k + j) × IsFirstActs k rest j
  unfolding first_from
  first_from-some k [] h = cc
  first_from-some k (s ∷ rest) {i} h = elim (Bool-cases (actionable steps rule u k s)) [
    | inl e ↦
        let q : k ≡ k + zero = omega arith in
        (
          zero,
          ground arith,
          (
            (s, refl, subst (λ n. actionable steps rule u n s ≡ true) q e),
            λ j l. absurd (omega arith),
          ),
        )
    | inr e ↦
        let (j, q, (c, f)) = first_from-some (suc k) rest {i = i} (ground arith) in
        (suc j, omega arith, (later-Acts k s rest j c, λ m l d. before k s rest j e f m l d))
  ]
    where
      before :
          (k : ℕ) (s : ApprovalStep) (rest : List ApprovalStep) (j : ℕ)
          → actionable steps rule u k s ≡ false
          → ((m : ℕ) → m < j → ¬ Acts (suc k) rest m)
          → (m : ℕ) → m < suc j
          → ¬ Acts k (s ∷ rest) m
      before k s rest j e f zero l (x, y, a) =
          let q : k + zero ≡ k = omega arith in
          let a' : actionable steps rule u k x ≡ true =
            subst (λ n. actionable steps rule u n x ≡ true) q a in
          let t : s ≡ x = ground arith in
          let b : actionable steps rule u k s ≡ true =
            subst (λ y. actionable steps rule u k y ≡ true) (sym t) a' in
          ground arith
      before k s rest j e f (suc m) l d = f m (omega arith) (Acts-later k s rest m d)

  -- The steps of the given places are there and approved or skipped.
  abbrev pub DepsDone : List ℕ → Type 0
  DepsDone deps =
      (d : ℕ)
      → In d deps
      → (t : ApprovalStep) × (get_elem? steps d ≡ some t) × (is_done t.status ≡ true)

  -- The step at `i` waits, what it depends on is done, and the user is eligible for it.
  abbrev pub CanAct : ℕ → Type 0
  CanAct i =
      (s : ApprovalStep) × (get_elem? steps i ≡ some s)
      × (is_pending s.status ≡ true)
      × DepsDone (deps_of rule i)
      × (can_decide_step s u ≡ true)

  deps_done-DepsDone : (deps : List ℕ) → deps_done steps deps ≡ true → DepsDone deps
  unfolding deps_done
  deps_done-DepsDone deps h d i =
      let q = all-true (λ d. step_done (get_elem? steps d)) deps h i in
      elim (Option-cases (get_elem? steps d)) [
        | inl e ↦ absurd (ground arith)
        | inr (t, e) ↦ (t, e, ground arith)
      ]

  DepsDone-deps_done : (deps : List ℕ) → DepsDone deps → deps_done steps deps ≡ true
  unfolding deps_done
  DepsDone-deps_done deps h =
      In-all (λ d. step_done (get_elem? steps d)) deps (λ d i. let (t, e, f) = h d i in rw e f)

  Acts-CanAct : (i : ℕ) → Acts 0 steps i → CanAct i
  unfolding actionable
  Acts-CanAct i (s, e, a) =
      (s, e, ground arith, deps_done-DepsDone (deps_of rule i) (ground arith), ground arith)

  CanAct-Acts : (i : ℕ) → CanAct i → Acts 0 steps i
  unfolding actionable
  CanAct-Acts i (s, e, p, d, c) =
      let q = DepsDone-deps_done (deps_of rule i) d in (s, e, ground arith)

  abbrev pub IsFirst : ℕ → Type 0
  IsFirst i = CanAct i × ((j : ℕ) → j < i → ¬ CanAct j)

  abbrev pub Choice : Option ℕ → Type 0
  Choice none = (j : ℕ) → ¬ CanAct j
  Choice (some i) = IsFirst i

  -- The index found is the first whose step is pending, has each step that it depends on there and
  -- approved or skipped, and admits the user; where none is found there is no such step.
  pub first_actionable_index-Choice : Choice (first_actionable_index steps rule u)
  unfolding first_actionable_index
  first_actionable_index-Choice = elim (Option-cases (first_from steps rule u 0 steps)) [
    | inl e ↦ rw e (λ j c. first_from-none 0 steps e j (CanAct-Acts j c))
    | inr (i, e) ↦
        let (j, q, (a, f)) = first_from-some 0 steps e in
        let p : j ≡ i = omega arith in
        rw e (subst IsFirst p (Acts-CanAct j a, λ m l c. f m l (CanAct-Acts m c)))
  ]
