-- ===== src/Leases.antt =====
-- The claim that webhooks.service.ts and notifications.service.ts make of their outbox rows, `claimDue`,
-- over any row that has an id, a due time, a status and the time of its last update.
use booking_system.Base.{
  ℕ, ◌≡◌, inl, inr, Bool, true, ◌&&◌, List, [], ◌∷◌, map, take, keep, change, includes,
  if◌then◌else◌, leb, All, All-take, All-keep, All-tabulate, Bool-cases, In,
}
use booking_system.Store.Outbox.{OutboxStatus}
use booking_system.SyncOutbox.{claimable_status, drain_batch}

-- What the claim reads and writes of a row.
pub record Lease (A : Type 0) : Type 0 where
  pub id_of : A → ℕ
  pub due_of : A → ℕ
  pub status_of : A → OutboxStatus
  pub updated_of : A → ℕ
  pub mark : ℕ → A → A

module _ {A : Type 0} (l : Lease A) where
  -- Due, and pending or left in processing by a worker that died.
  abbrev pub claimable : ℕ → A → Bool
  claimable now a = leb (l.due_of a) now && claimable_status (l.status_of a) (l.updated_of a) now

  unfoldable pub insert_due : A → List A → List A
  insert_due a [] = a ∷ []
  insert_due a (x ∷ xs) = if leb (l.due_of a) (l.due_of x) then a ∷ x ∷ xs else x ∷ insert_due a xs

  unfoldable pub by_due : List A → List A
  by_due [] = []
  by_due (a ∷ rest) = insert_due a (by_due rest)

  unfoldable pub due_rows : ℕ → List A → List A
  due_rows now rows = take drain_batch (by_due (keep (claimable now) rows))

  abbrev pub ids_of : List A → List ℕ
  ids_of rows = map l.id_of rows

  -- The rows claimed, and the table with them marked.
  unfoldable pub claim_due : ℕ → List A → List A × List A
  claim_due now rows =
      let claimed = due_rows now rows in
      (claimed, change (λ a. includes (ids_of claimed) (l.id_of a)) (l.mark now) rows)

  All-insert_due :
      (P : A → Type 0) (a : A) (rest : List A) → P a → All P rest → All P (insert_due a rest)
  unfolding insert_due
  All-insert_due P a [] p h = (p, tt)
  All-insert_due P a (x ∷ xs) p h = elim (Bool-cases (leb (l.due_of a) (l.due_of x))) [
    | inl e ↦ rw e (p, h)
    | inr e ↦ rw e (h.0, All-insert_due P a xs p h.1)
  ]

  All-by_due : (P : A → Type 0) (rest : List A) → All P rest → All P (by_due rest)
  unfolding by_due
  All-by_due P [] h = tt
  All-by_due P (a ∷ rest) h = All-insert_due P a (by_due rest) h.0 (All-by_due P rest h.1)

  abbrev pub IsDue : ℕ → List A → A → Type 0
  IsDue now rows a = In a rows × (claimable now a ≡ true)

  -- A claimed row was there, and due.
  pub due_rows-IsDue : (now : ℕ) (rows : List A) → All (IsDue now rows) (due_rows now rows)
  unfolding due_rows
  due_rows-IsDue now rows =
      All-take (IsDue now rows) drain_batch (by_due (keep (claimable now) rows)) (
        All-by_due (IsDue now rows) (keep (claimable now) rows) (
          All-keep (λ a. In a rows) (IsDue now rows) (claimable now) rows (λ a c i. (i, c))
            (All-tabulate (λ a. In a rows) rows (λ a i. i))))
