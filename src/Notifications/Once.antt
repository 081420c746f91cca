-- ===== src/Notifications/Once.antt =====
-- notifications.service.ts: the relay accepts the mail of a row at most once.
use booking_system.Base.{
  ℕ, ◌+◌, ◌<◌, ◌≤◌, ◌≡◌, refl, sym, subst, ◌∙◌, inl, inr, Bool, false, ◌&&◌, Option, none, some,
  is_some, not, List, [], ◌∷◌, Text, includes, leb, tally, find, ◌==◌, ==_iff, All, All-change,
  All-snoc, arith, Bool-cases,
}
use booking_system.Store.Booking.{Booking}
use booking_system.Store.Outbox.{Event, sent}
use booking_system.Leases.{claim_due, ids_of, due_rows}
use booking_system.Notifications.{
  Notifications, NotificationOutbox, Mail, Recipient, Place, mail_lease, mail_of, delivered,
  deliver_one, deliver_all, drain, enqueue, new_row, resolve_email, add_row, vars_of, Vars,
}
use booking_system.Notifications.Counts.{tally-change, tally-snoc, tally-none, tally-due_rows}
use booking_system.Notifications.Rows.{
  is_at, IsSentAt, claimed-others, others-includes, delivered-id, delivered-sent, tally-save,
  save-IsSentAt, save-sent,
}

-- A booking's event is queued, or the cron ticks; the relay answers each tick in its own way.
pub data Op : Type 0 where
  enqueues : (now tenant : ℕ) → Event → Booking → Op
  ticks : (now : ℕ) → (Mail → Option Text) → Bool → Op

unfoldable pub apply : Op → Notifications → Notifications
apply (enqueues now tenant event b) n = enqueue now tenant event b n
apply (ticks now smtp push) n = drain smtp push now n

unfoldable pub run : List Op → Notifications → Notifications
run [] n = n
run (o ∷ os) n = run os (apply o n)

-- The relay accepted a mail of the row `j`.
abbrev pub is_accepted : ℕ → Mail × Option Text → Bool
is_accepted j (m, answer) = m.row == j && not (is_some answer)

-- At most one row has the id `j` and at most one of its mails was accepted, after which the row is sent.
record IsOnce (j : ℕ) (n : Notifications) : Type 0 where
  single : tally (is_at j) n.rows ≤ 1
  once : tally (is_accepted j) n.attempts ≤ 1
  settled : 0 < tally (is_accepted j) n.attempts → All (IsSentAt j) n.rows
  unused : n.next_id ≤ j → (tally (is_at j) n.rows ≡ 0) × (tally (is_accepted j) n.attempts ≡ 0)

module _ (smtp : Mail → Option Text) (push : Bool) where
  deliver_one-IsOnce :
      (j now : ℕ) (r : NotificationOutbox) (rs : List NotificationOutbox) (n : Notifications)
      → tally (is_at j) (r ∷ rs) + tally (is_accepted j) n.attempts ≤ 1
      → (n.next_id ≤ j → tally (is_at j) (r ∷ rs) ≡ 0)
      → IsOnce j n
      → IsOnce j (deliver_one smtp push now r n)
        × (tally (is_at j) rs + tally (is_accepted j) (deliver_one smtp push now r n).attempts ≤ 1)
  unfolding deliver_one mail_of
  deliver_one-IsOnce j now r rs n h l c =
      let o = smtp (mail_of n.templates r) in
      let w = delivered now o r in
      let i = delivered-id now o r in
      let t = tally-save j w n.rows in
      let single = c.single in
      let once = c.once in
      let settled = c.settled in
      let unused = c.unused in
      elim (Bool-cases (r.id == j)) [
        | inr f ↦ (
          record {
            single = omega arith;
            once = ground arith;
            settled = λ k.
                save-IsSentAt j w n.rows (λ e. absurd (let g = (==_iff r.id j).1 (sym i ∙ e) in cc))
                  (settled (ground arith));
            unused = λ k. let u = unused k in (omega arith, ground arith);
          },
          ground arith,
        )
        | inl g ↦ elim (Bool-cases (not (is_some o))) [
          | inl a ↦ (
            record {
              single = omega arith;
              once = ground arith;
              settled =
                  λ k. save-sent j w n.rows (i ∙ (==_iff r.id j).0 g) (delivered-sent now o r a);
              unused = λ k. let z = l k in absurd (ground arith);
            },
            ground arith,
          )
          | inr a ↦ (
            record {
              single = omega arith;
              once = ground arith;
              settled = λ k. absurd (ground arith);
              unused = λ k. let z = l k in absurd (ground arith);
            },
            ground arith,
          )
        ]
      ]

  deliver_all-IsOnce :
      (j now : ℕ) (rs : List NotificationOutbox) (n : Notifications)
      → tally (is_at j) rs + tally (is_accepted j) n.attempts ≤ 1
      → (n.next_id ≤ j → tally (is_at j) rs ≡ 0)
      → IsOnce j n
      → IsOnce j (deliver_all smtp push now rs n)
  unfolding deliver_all deliver_one
  deliver_all-IsOnce j now [] n h l c = c
  deliver_all-IsOnce j now (r ∷ rs) n h l c =
      let (d, k) = deliver_one-IsOnce j now r rs n h l c in
      deliver_all-IsOnce j now rs (deliver_one smtp push now r n) k
        (λ m. let z = l m in ground arith) d

  marked-IsSentAt :
      (j now : ℕ) (rows : List NotificationOutbox)
      → All (IsSentAt j) rows
      → All (IsSentAt j) (claim_due mail_lease now rows).1
  unfolding claim_due
  marked-IsSentAt j now rows s =
      let rs = due_rows mail_lease now rows in
      let f = others-includes j rs (claimed-others j now rows s) in
      All-change (IsSentAt j) (λ (x : NotificationOutbox). includes (ids_of mail_lease rs) x.id)
        (mail_lease.mark now) rows
        (λ x t p e.
          absurd (let g = subst (λ i. includes (ids_of mail_lease rs) i ≡ false) (sym e) f in cc))
        s

  drain-IsOnce : (j now : ℕ) (n : Notifications) → IsOnce j n → IsOnce j (drain smtp push now n)
  unfolding drain claim_due
  drain-IsOnce j now n c =
      let rs = due_rows mail_lease now n.rows in
      let rows = (claim_due mail_lease now n.rows).1 in
      let m : tally (is_at j) rows ≡ tally (is_at j) n.rows =
        tally-change (is_at j) (λ (x : NotificationOutbox). includes (ids_of mail_lease rs) x.id)
          (mail_lease.mark now) n.rows (λ x t. refl) in
      let d = tally-due_rows (is_at j) now n.rows in
      let single = c.single in
      let once = c.once in
      deliver_all-IsOnce j now rs (record n { rows = rows })
        (elim (Bool-cases (leb (tally (is_accepted j) n.attempts) 0)) [
          | inl z ↦ ground arith
          | inr z ↦
              let e =
                tally-none (is_at j) rs (claimed-others j now n.rows (c.settled (ground arith))) in
              omega arith
        ])
        (λ k. let u = c.unused k in omega arith)
        (record {
          single = omega arith;
          once = once;
          settled = λ k. marked-IsSentAt j now n.rows (c.settled k);
          unused = λ k. let u = c.unused k in (omega arith, u.1);
        })

enqueue-IsOnce :
    (j now tenant : ℕ) (event : Event) (b : Booking) (n : Notifications)
    → IsOnce j n
    → IsOnce j (enqueue now tenant event b n)
unfolding enqueue new_row
enqueue-IsOnce j now tenant event b n c =
    added
      (vars_of b user
        (find (λ (p : Place). p.id == b.resource_id && p.tenant_id == tenant) n.places))
      (resolve_email user)
  where
    user : Option Recipient
    user = find (λ (u : Recipient). u.id == b.user_id && u.tenant_id == tenant) n.recipients

    added : (v : Vars) (o : Option Text) → IsOnce j (add_row now tenant event b v o n)
    added v none = c
    added v (some email) =
        let r = new_row n.next_id now tenant event b email v in
        let t = tally-snoc (is_at j) n.rows r in
        let single = c.single in
        let unused = c.unused in
        record {
          single = elim (Bool-cases (n.next_id == j)) [
            | inl e ↦
                let u = unused (let q = (==_iff n.next_id j).0 e in omega arith) in ground arith
            | inr e ↦ ground arith
          ];
          once = c.once;
          settled = λ k.
              All-snoc (IsSentAt j) n.rows r (c.settled k)
                (λ e. let u = unused (omega arith) in absurd (omega arith));
          unused = λ k. let u = unused (omega arith) in (ground arith, u.1);
        }

run-IsOnce : (j : ℕ) (os : List Op) (n : Notifications) → IsOnce j n → IsOnce j (run os n)
unfolding run apply
run-IsOnce j [] n c = c
run-IsOnce j (enqueues now tenant event b ∷ os) n c =
    run-IsOnce j os (enqueue now tenant event b n) (enqueue-IsOnce j now tenant event b n c)
run-IsOnce j (ticks now smtp push ∷ os) n c =
    run-IsOnce j os (drain smtp push now n) (drain-IsOnce smtp push j now n c)

-- From an empty outbox, after any sequence of events and of ticks, one at a time, however the relay answers each tick,
-- it has accepted at most one mail of each row, and where it accepted one the row is sent.
pub run-accepts_once :
    (j : ℕ) (os : List Op) (n : Notifications)
    → n.rows ≡ []
    → n.attempts ≡ []
    → (tally (is_accepted j) (run os n).attempts ≤ 1)
      × (0 < tally (is_accepted j) (run os n).attempts
          → All (λ (r : NotificationOutbox). r.id ≡ j → r.status ≡ sent) (run os n).rows)
run-accepts_once j os n r a =
    let c = run-IsOnce j os n (record {
      single = rw r (omega arith);
      once = rw a (omega arith);
      settled = λ k. absurd (let q = rw a at k in omega arith);
      unused = λ k. rw (r, a) (refl, refl);
    }) in
    (c.once, c.settled)
