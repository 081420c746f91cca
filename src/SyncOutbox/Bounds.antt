-- ===== src/SyncOutbox/Bounds.antt =====
-- The attempts of an outbox row, as the ticks of sync-outbox.service.ts change them.
use booking_system.Base.{
  ℕ, ◌+◌, ◌<◌, ◌≡◌, refl, inl, inr, Bool, true, false, ◌&&◌, List, [], ◌∷◌, Text, leb, All, arith,
  Bool-cases, keep, change, All-take, All-keep, In, In-change, ◌⊎◌,
}
use booking_system.Store.Outbox.{OutboxStatus, pending, processing, sent, failed, SyncOutbox}
use booking_system.SyncOutbox.{
  Queue, claimable_status, max_attempts, drain_batch, claimable, by_next_attempt, insert_due,
  due_rows, delivered,
}

-- A failed row has used its six attempts, any other has some left.
abbrev pub Within : OutboxStatus → ℕ → Type 0
Within failed n = n ≡ max_attempts
Within _ n = n < max_attempts

abbrev pub IsBounded : SyncOutbox → Type 0
IsBounded r = Within r.status r.attempt_count

-- What a tick hands to the adapters: a row with an attempt left.
abbrev pub HasAttempt : SyncOutbox → Type 0
HasAttempt r = r.attempt_count < max_attempts

pub claimable-HasAttempt :
    (now : ℕ) (r : SyncOutbox) → claimable now r ≡ true → IsBounded r → HasAttempt r
claimable-HasAttempt now r c h =
    elim r.status
        as (λ s.
          (leb r.next_attempt_at now && claimable_status s r.updated_at now) ≡ true
          → Within s r.attempt_count
          → HasAttempt r) [
            | pending ↦ λ c h. h
            | processing ↦ λ c h. h
            | sent ↦ λ c h. h
            | failed ↦ λ c h. ground arith
          ]
      c h

All-insert_due :
    (P : SyncOutbox → Type 0) (r : SyncOutbox) (rs : List SyncOutbox)
    → P r
    → All P rs
    → All P (insert_due r rs)
unfolding insert_due
All-insert_due P r [] p h = (p, tt)
All-insert_due P r (x ∷ xs) p h = elim (Bool-cases (leb r.next_attempt_at x.next_attempt_at)) [
  | inl e ↦ rw e (p, h)
  | inr e ↦ rw e (h.0, All-insert_due P r xs p h.1)
]

All-by_next_attempt :
    (P : SyncOutbox → Type 0) (rs : List SyncOutbox) → All P rs → All P (by_next_attempt rs)
unfolding by_next_attempt
All-by_next_attempt P [] h = tt
All-by_next_attempt P (r ∷ rs) h =
    All-insert_due P r (by_next_attempt rs) h.0 (All-by_next_attempt P rs h.1)

pub All-due_rows :
    (P Q : SyncOutbox → Type 0) (now : ℕ) (rs : List SyncOutbox)
    → ((r : SyncOutbox) → claimable now r ≡ true → P r → Q r)
    → All P rs
    → All Q (due_rows now rs)
unfolding due_rows
All-due_rows P Q now rs s h =
    All-take Q drain_batch (by_next_attempt (keep (claimable now) rs))
      (All-by_next_attempt Q (keep (claimable now) rs) (All-keep P Q (claimable now) rs s h))

pub delivered-IsBounded :
    (now : ℕ) (es : List Text) (r : SyncOutbox) → HasAttempt r → IsBounded (delivered now es r)
unfolding delivered
delivered-IsBounded now [] r h = h
delivered-IsBounded now (e ∷ es) r h = elim (Bool-cases (leb max_attempts (r.attempt_count + 1))) [
  | inl q ↦ rw q (ground arith)
  | inr q ↦ rw q (ground arith)
]

pub delivered-id : (now : ℕ) (es : List Text) (r : SyncOutbox) → (delivered now es r).id ≡ r.id
unfolding delivered
delivered-id now [] r = refl
delivered-id now (e ∷ es) r = ground arith

-- No two rows share an id.
abbrev pub Unique : List SyncOutbox → Type 0
Unique rows = (a b : SyncOutbox) → In a rows → In b rows → a.id ≡ b.id → a ≡ b

pub change-Unique :
    (p : SyncOutbox → Bool) (f : SyncOutbox → SyncOutbox) (rows : List SyncOutbox)
    → ((r : SyncOutbox) → p r ≡ true → (f r).id ≡ r.id)
    → Unique rows
    → Unique (change p f rows)
change-Unique p f rows k u a b i j e =
    let (c, ci, cs) = In-change p f rows i in
    let (d, di, ds) = In-change p f rows j in go c ci cs d di ds
  where
    go :
        (c : SyncOutbox)
        → In c rows
        → ((p c ≡ true) × (a ≡ f c)) ⊎ ((p c ≡ false) × (a ≡ c))
        → (d : SyncOutbox) → In d rows
        → ((p d ≡ true) × (b ≡ f d)) ⊎ ((p d ≡ false) × (b ≡ d))
        → a ≡ b
    go c ci (inl x) d di (inl y) =
        let k1 = k c x.0 in let k2 = k d y.0 in let q : c ≡ d = u c d ci di (cc) in cc
    go c ci (inl x) d di (inr y) = let k1 = k c x.0 in let q : c ≡ d = u c d ci di (cc) in cc
    go c ci (inr x) d di (inl y) = let k2 = k d y.0 in let q : c ≡ d = u c d ci di (cc) in cc
    go c ci (inr x) d di (inr y) = let q : c ≡ d = u c d ci di (cc) in cc

-- Ids are unique and below the next one, and each row is within its attempts.
abbrev pub IsValid : Queue → Type 0
IsValid q = Unique q.rows × All (λ (r : SyncOutbox). r.id < q.next_id) q.rows × All IsBounded q.rows
