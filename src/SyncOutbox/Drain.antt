-- ===== src/SyncOutbox/Drain.antt =====
-- The ticks and the enqueues of sync-outbox.service.ts keep the outbox valid.
use booking_system.Base.{
  ℕ, suc, ◌<◌, ◌≡◌, refl, sym, ◌∙◌, inl, inr, Option, none, some, List, [], ◌∷◌, Text, ◌==◌, All,
  arith, All-change, All-imp, All-lookup,
}
use booking_system.Store.Booking.{SyncStatus}
use booking_system.Store.Outbox.{Event, SyncOutbox}
use booking_system.SyncOutbox.{
  Queue, new_row, enqueue, retry, mark_booking_sync, mark_opt, save_row, claim_due, errors_of,
  delivered, outcome_status, deliver_one, deliver_all, drain,
}
use booking_system.SyncOutbox.Bounds.{
  IsValid, IsBounded, HasAttempt, Unique, change-Unique, delivered-IsBounded,
}
use booking_system.SyncOutbox.Claims.{claim_due-IsValid, claim_due-HasAttempt}

below-differ : (a b r : SyncOutbox) (n : ℕ) → a ≡ r → r.id ≡ n → b.id < n → ¬ (a.id ≡ b.id)
below-differ a b r n p e k h = let q : b.id ≡ n = cc in omega arith

enqueue-Unique :
    (r : SyncOutbox) (rows : List SyncOutbox) (n : ℕ)
    → r.id ≡ n
    → All (λ (x : SyncOutbox). x.id < n) rows
    → Unique rows
    → Unique (r ∷ rows)
enqueue-Unique r rows n e l u a b (inl p) (inl q) h = p ∙ sym q
enqueue-Unique r rows n e l u a b (inl p) (inr j) h =
    absurd (below-differ a b r n p e (All-lookup (λ (x : SyncOutbox). x.id < n) rows l j) h)
enqueue-Unique r rows n e l u a b (inr i) (inl q) h =
    absurd (below-differ b a r n q e (All-lookup (λ (x : SyncOutbox). x.id < n) rows l i) (sym h))
enqueue-Unique r rows n e l u a b (inr i) (inr j) h = u a b i j h

enqueue-IsValid :
    (now : ℕ) (e : Event) (t b : ℕ) (q : Queue) → IsValid q → IsValid (enqueue now e t b q)
unfolding enqueue
enqueue-IsValid now e t b q (u, n, h) = (
  enqueue-Unique (new_row q.next_id e t b now) q.rows q.next_id refl n u,
  (
    omega arith,
    All-imp (λ (r : SyncOutbox). r.id < q.next_id) (λ (r : SyncOutbox). r.id < suc q.next_id) q.rows
        (λ r l. omega arith) n,
  ),
  (ground arith, h),
)

mark_booking_sync-IsValid :
    (t b : ℕ) (s : SyncStatus) (q : Queue) → IsValid q → IsValid (mark_booking_sync t b s q)
unfolding mark_booking_sync
mark_booking_sync-IsValid t b s q h = h

mark_opt-IsValid :
    (t b : ℕ) (s : Option SyncStatus) (q : Queue) → IsValid q → IsValid (mark_opt t b s q)
mark_opt-IsValid t b none q h = h
mark_opt-IsValid t b (some s) q h = mark_booking_sync-IsValid t b s q h

retry-IsValid : (now t b : ℕ) (e : Event) (q : Queue) → IsValid q → IsValid (retry now t b e q)
unfolding retry
retry-IsValid now t b e q h =
    enqueue-IsValid now e t b (mark_booking_sync t b SyncStatus.pending q)
      (mark_booking_sync-IsValid t b SyncStatus.pending q h)

save_row-IsValid : (r : SyncOutbox) (q : Queue) → IsBounded r → IsValid q → IsValid (save_row r q)
save_row-IsValid r q b (u, n, h) = (
  change-Unique (λ (x : SyncOutbox). x.id == r.id) (λ _. r) q.rows (λ x e. ground arith) u,
  All-change (λ (x : SyncOutbox). x.id < q.next_id) (λ (x : SyncOutbox). x.id == r.id) (λ _. r)
      q.rows (λ x e l. ground arith) n,
  All-change IsBounded (λ (x : SyncOutbox). x.id == r.id) (λ _. r) q.rows (λ x e l. b) h,
)

module _ (push : SyncOutbox → Option Text × Option Text) (now : ℕ) where
  deliver_all-IsValid :
      (rs : List SyncOutbox) (q : Queue)
      → All HasAttempt rs
      → IsValid q
      → IsValid (deliver_all push now rs q)
  unfolding deliver_all deliver_one
  deliver_all-IsValid [] q a v = v
  deliver_all-IsValid (r ∷ rs) q a v =
      let es = errors_of (push r).0 (push r).1 in
      let q' = mark_opt r.tenant_id r.booking_id (outcome_status es r) q in
      deliver_all-IsValid rs (deliver_one push now r q) a.1 (
        save_row-IsValid (delivered now es r) q' (delivered-IsBounded now es r a.0)
          (mark_opt-IsValid r.tenant_id r.booking_id (outcome_status es r) q v))

  drain-IsValid : (q : Queue) → IsValid q → IsValid (drain push now q)
  unfolding drain
  drain-IsValid q v =
      deliver_all-IsValid (claim_due now q).0 (claim_due now q).1 (claim_due-HasAttempt now q v)
        (claim_due-IsValid now q v)

-- What happens to the outbox: a booking service enqueues, an operator retries, the cron drains.
pub data Op : Type 0 where
  enqueues : ℕ → Event → ℕ → ℕ → Op
  retries : ℕ → ℕ → ℕ → Event → Op
  drains : (SyncOutbox → Option Text × Option Text) → ℕ → Op

unfoldable pub apply : Op → Queue → Queue
apply (enqueues now e t b) q = enqueue now e t b q
apply (retries now t b e) q = retry now t b e q
apply (drains push now) q = drain push now q

unfoldable pub run : List Op → Queue → Queue
unfolding apply
run [] q = q
run (o ∷ os) q = run os (apply o q)

apply-IsValid : (o : Op) (q : Queue) → IsValid q → IsValid (apply o q)
unfolding apply
apply-IsValid (enqueues now e t b) q v = enqueue-IsValid now e t b q v
apply-IsValid (retries now t b e) q v = retry-IsValid now t b e q v
apply-IsValid (drains push now) q v = drain-IsValid push now q v

-- From a valid outbox, through any sequence of enqueues, retries and ticks, whatever the two calendars answer, the ids
-- of the outbox stay unique, and a row is failed exactly with six attempts, else has used fewer.
pub run-IsValid : (os : List Op) (q : Queue) → IsValid q → IsValid (run os q)
unfolding run
run-IsValid [] q v = v
run-IsValid (o ∷ os) q v = run-IsValid os (apply o q) (apply-IsValid o q v)
