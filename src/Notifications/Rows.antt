-- ===== src/Notifications/Rows.antt =====
-- notifications.service.ts: a sent row through a claim and a write.
use booking_system.Base.{
  ℕ, ◌+◌, ◌≡◌, ◌≢◌, refl, sym, ap, ◌∙◌, inl, inr, Bool, true, false, Option, none, some, is_some,
  not, List, [], ◌∷◌, Text, includes, leb, tally, ◌==◌, ==_iff, All, All-change, All-imp,
  All-lookup, arith, Bool-cases,
}
use booking_system.Store.Outbox.{OutboxStatus, pending, processing, sent, failed}
use booking_system.SyncOutbox.{max_attempts, claimable_status}
use booking_system.Leases.{ids_of, due_rows, IsDue, due_rows-IsDue}
use booking_system.Notifications.{NotificationOutbox, mail_lease, delivered, save}
use booking_system.Notifications.Counts.{tally-change}

abbrev pub is_at : ℕ → NotificationOutbox → Bool
is_at j r = r.id == j

abbrev pub IsSentAt : ℕ → NotificationOutbox → Type 0
IsSentAt j r = r.id ≡ j → r.status ≡ sent

sent-unclaimable :
    (s : OutboxStatus) (updated now : ℕ) → claimable_status s updated now ≡ true → s ≢ sent
sent-unclaimable pending u now h = λ e. cc
sent-unclaimable processing u now h = λ e. cc
sent-unclaimable sent u now h = cc
sent-unclaimable failed u now h = cc

-- A sent row is not claimed.
pub claimed-others :
    (j now : ℕ) (rows : List NotificationOutbox)
    → All (IsSentAt j) rows
    → All (λ (r : NotificationOutbox). is_at j r ≡ false) (due_rows mail_lease now rows)
claimed-others j now rows s =
    All-imp (IsDue mail_lease now rows) (λ (r : NotificationOutbox). is_at j r ≡ false)
      (due_rows mail_lease now rows)
      (λ r d. elim (Bool-cases (is_at j r)) [
        | inr f ↦ f
        | inl t ↦
            let q = All-lookup (IsSentAt j) rows s d.0 ((==_iff r.id j).0 t) in
            absurd (sent-unclaimable r.status r.updated_at now (ground arith) q)
      ])
      (due_rows-IsDue mail_lease now rows)

pub others-includes :
    (j : ℕ) (rs : List NotificationOutbox)
    → All (λ (r : NotificationOutbox). is_at j r ≡ false) rs
    → includes (ids_of mail_lease rs) j ≡ false
others-includes j [] h = refl
others-includes j (r ∷ rs) h = let k = others-includes j rs h.1 in let m = h.0 in ground arith

pub delivered-id :
    (now : ℕ) (o : Option Text) (r : NotificationOutbox) → (delivered now o r).id ≡ r.id
unfolding delivered
delivered-id now none r = refl
delivered-id now (some e) r = elim (Bool-cases (leb max_attempts (r.attempt_count + 1))) [
  | inl t ↦ rw t refl
  | inr f ↦ rw f refl
]

pub delivered-sent :
    (now : ℕ) (o : Option Text) (r : NotificationOutbox)
    → not (is_some o) ≡ true
    → (delivered now o r).status ≡ sent
unfolding delivered
delivered-sent now none r h = refl
delivered-sent now (some e) r h = cc

pub tally-save :
    (j : ℕ) (w : NotificationOutbox) (rows : List NotificationOutbox)
    → tally (is_at j) (save w rows) ≡ tally (is_at j) rows
unfolding save
tally-save j w rows =
    tally-change (is_at j) (λ (x : NotificationOutbox). x.id == w.id) (λ _. w) rows
      (λ x t. let e = (==_iff x.id w.id).0 t in ap (λ i. i == j) (sym e))

pub save-IsSentAt :
    (j : ℕ) (w : NotificationOutbox) (rows : List NotificationOutbox)
    → IsSentAt j w
    → All (IsSentAt j) rows
    → All (IsSentAt j) (save w rows)
unfolding save
save-IsSentAt j w rows h s =
    All-change (IsSentAt j) (λ (x : NotificationOutbox). x.id == w.id) (λ _. w) rows (λ x t p. h) s

-- Saving the one row `j` as sent leaves all rows `j` sent.
pub save-sent :
    (j : ℕ) (w : NotificationOutbox) (rows : List NotificationOutbox)
    → w.id ≡ j
    → w.status ≡ sent
    → All (IsSentAt j) (save w rows)
unfolding save
save-sent j w [] e h = tt
save-sent j w (x ∷ xs) e h = elim (Bool-cases (x.id == w.id)) [
  | inl t ↦ rw t (λ q. h, save-sent j w xs e h)
  | inr f ↦
      rw f (λ q. absurd (let k = (==_iff x.id w.id).1 (q ∙ sym e) in cc), save-sent j w xs e h)
]
