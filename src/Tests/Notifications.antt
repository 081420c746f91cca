-- ===== src/Tests/Notifications.antt =====
-- The outbox of mails at concrete inputs.
use booking_system.Base.{
  tally, ◌≤◌, ◌<◌, All, is_some, map, ◌≡◌, refl, true, false, Option, none, some, List, [], ◌∷◌,
  Text, codes, split, is_space, trim, to_lower_case, text_eq,
}
use booking_system.Store.Outbox.{booking_created, booking_cancelled, sent}
use booking_system.Notifications.{
  Notifications, NotificationOutbox, Mail, Recipient, enqueue, drain, is_email, normalize_locale,
  zh_hans, resolve_email, deliver_all,
}
use booking_system.Notifications.Once.{Op, enqueues, ticks, run, is_accepted, run-accepts_once}
use booking_system.Tests.Data.{meeting}

abbrev host : Recipient
host = record {
  id = meeting.user_id;
  tenant_id = 9;
  username = codes "ada@example.org";
  email = none;
  locale = some (codes " zh-CN");
}

abbrev no_mail : Notifications
no_mail = record {
  recipients = host ∷ [];
  places = [];
  templates = [];
  rows = [];
  attempts = [];
  pushes = [];
  next_id = 1;
}

-- The relay answers for the first tick, and afterwards accepts.
abbrev later : List Op
later =
    enqueues 1000 9 booking_created meeting
    ∷ ticks 2000 (λ m. some (codes "greylisted")) true
    ∷ ticks 40000 (λ m. none) true
    ∷ enqueues 41000 9 booking_cancelled meeting
    ∷ ticks 700000 (λ m. none) true
    ∷ []

run-accepts_once_example :
    (tally (is_accepted 1) (run later no_mail).attempts ≤ 1)
    × (0 < tally (is_accepted 1) (run later no_mail).attempts
        → All (λ (r : NotificationOutbox). r.id ≡ 1 → r.status ≡ sent) (run later no_mail).rows)
run-accepts_once_example = run-accepts_once 1 later no_mail refl refl

-- Both mails went out, the first at its second attempt.
later_attempts :
    map (λ (a : Mail × Option Text). is_some a.1) (run later no_mail).attempts
    ≡ false ∷ false ∷ true ∷ []
unfolding run booking_system.Notifications.Once.apply drain deliver_all
    booking_system.Leases.claim_due booking_system.Leases.due_rows booking_system.Leases.by_due
    enqueue resolve_email is_email split is_space booking_system.Notifications.new_row
    booking_system.Leases.insert_due booking_system.Notifications.deliver_one
    booking_system.Notifications.save booking_system.Notifications.delivered
    booking_system.SyncOutbox.backoff_ms
later_attempts = refl

emails :
    (is_email (codes "a@b.c") ≡ true)
    × (is_email (codes "a@b.") ≡ false)
    × (is_email (codes "a@@b.c") ≡ false)
    × (is_email (codes "a b@c.d") ≡ false)
    × (normalize_locale host.locale ≡ zh_hans)
unfolding is_email normalize_locale split is_space trim to_lower_case text_eq
emails = (refl, refl, refl, refl, refl)
