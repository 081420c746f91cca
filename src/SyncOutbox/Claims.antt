-- ===== src/SyncOutbox/Claims.antt =====
-- What a tick of sync-outbox.service.ts claims, and when a row can be claimed again.
use booking_system.Base.{
  ℕ, ◌<◌, ◌≡◌, refl, sym, subst, inl, inr, Bool, true, false, List, [], ◌∷◌, ◌==◌, All, arith,
  Bool-cases, change, includes, ==_refl, In, In-change, All-tabulate, All-lookup, All-change, ◌⊎◌,
}
use booking_system.Store.Outbox.{processing, SyncOutbox}
use booking_system.SyncOutbox.{Queue, claimable, due_rows, claim_due, ids_of}
use booking_system.SyncOutbox.Bounds.{
  IsValid, change-Unique, All-due_rows, Unique, HasAttempt, IsBounded, claimable-HasAttempt,
}

pub includes-ids :
    (rs : List SyncOutbox) (k : ℕ)
    → includes (ids_of rs) k ≡ true
    → (r : SyncOutbox) × In r rs × (r.id ≡ k)
includes-ids [] k h = cc
includes-ids (r ∷ rs) k h = elim (Bool-cases (r.id == k)) [
  | inl e ↦ (r, inl refl, ground arith)
  | inr e ↦ let (x, i, q) = includes-ids rs k (ground arith) in (x, inr i, q)
]

pub In-ids : (r : SyncOutbox) (rs : List SyncOutbox) → In r rs → includes (ids_of rs) r.id ≡ true
In-ids r [] i = elim i [ ]
In-ids r (x ∷ rs) (inl e) = rw e (ground (arith, ==_refl x.id))
In-ids r (x ∷ rs) (inr i) = ground (arith, In-ids r rs i)

abbrev pub IsDue : ℕ → List SyncOutbox → SyncOutbox → Type 0
IsDue now rows r = In r rows × (claimable now r ≡ true)

-- A claimed row was there, and due.
pub due_rows-IsDue : (now : ℕ) (rows : List SyncOutbox) → All (IsDue now rows) (due_rows now rows)
due_rows-IsDue now rows =
    All-due_rows (λ r. In r rows) (IsDue now rows) now rows (λ r c i. (i, c))
      (All-tabulate (λ r. In r rows) rows (λ a i. i))

abbrev mark : ℕ → SyncOutbox → SyncOutbox
mark now r = record r { status = processing; updated_at = now }

abbrev marked : ℕ → List ℕ → List SyncOutbox → List SyncOutbox
marked now ids rows = change (λ (r : SyncOutbox). includes ids r.id) (mark now) rows

due-HasAttempt :
    (now : ℕ) (rows : List SyncOutbox) → All IsBounded rows → All HasAttempt (due_rows now rows)
due-HasAttempt now rows h =
    All-due_rows IsBounded HasAttempt now rows (λ r c b. claimable-HasAttempt now r c b) h

-- A marked row was due, since no other row has its id.
marked-due :
    (now : ℕ) (rows : List SyncOutbox) (c : SyncOutbox)
    → Unique rows
    → In c rows
    → includes (ids_of (due_rows now rows)) c.id ≡ true
    → In c (due_rows now rows)
marked-due now rows c u i h =
    let (y, yi, e) = includes-ids (due_rows now rows) c.id h in
    let d = All-lookup (IsDue now rows) (due_rows now rows) (due_rows-IsDue now rows) yi in
    subst (λ x. In x (due_rows now rows)) (u y c d.0 i e) yi

marked-IsBounded :
    (now : ℕ) (rows : List SyncOutbox)
    → Unique rows
    → All IsBounded rows
    → All IsBounded (marked now (ids_of (due_rows now rows)) rows)
marked-IsBounded now rows u h =
    All-tabulate IsBounded (marked now ids rows) (λ a i. go a (In-change p (mark now) rows i))
  where
    ids : List ℕ
    ids = ids_of (due_rows now rows)

    p : SyncOutbox → Bool
    p r = includes ids r.id

    go :
        (a : SyncOutbox)
        → (c : SyncOutbox) × In c rows
          × (((p c ≡ true) × (a ≡ mark now c)) ⊎ ((p c ≡ false) × (a ≡ c)))
        → IsBounded a
    go a (c, ci, inl (t, e)) = subst IsBounded (sym e) (
        All-lookup HasAttempt (due_rows now rows) (due-HasAttempt now rows h)
          (marked-due now rows c u ci t))
    go a (c, ci, inr (f, e)) = subst IsBounded (sym e) (All-lookup IsBounded rows h ci)

pub claim_due-IsValid : (now : ℕ) (q : Queue) → IsValid q → IsValid (claim_due now q).1
unfolding claim_due
claim_due-IsValid now q (u, n, b) = (
  change-Unique (λ r. includes (ids_of (due_rows now q.rows)) r.id) (mark now) q.rows (λ r e. refl)
      u,
  All-change (λ (r : SyncOutbox). r.id < q.next_id)
      (λ r. includes (ids_of (due_rows now q.rows)) r.id) (mark now) q.rows (λ r e l. l) n,
  marked-IsBounded now q.rows u b,
)

pub claim_due-HasAttempt : (now : ℕ) (q : Queue) → IsValid q → All HasAttempt (claim_due now q).0
unfolding claim_due
claim_due-HasAttempt now q (u, n, h) = due-HasAttempt now q.rows h
