-- ===== src/Notifications.antt =====
-- modules/notifications/notifications.service.ts: the outbox of mails, with normalizeLocale of
-- notifications.i18n.ts. The answer of the mail relay and PushService.isConfigured are parameters; the texts of the
-- templates are not filled in.
pub mod Counts
pub mod Rows
pub mod Once
use booking_system.Base.{
  ℕ, ◌+◌, ◌-◌, ◌≡◌, refl, Bool, true, false, not, ◌&&◌, ◌||◌, Option, none, some, or_else, List, [],
  ◌∷◌, ◌++◌, Text, codes, text_eq, is_empty, is_space, trim, to_lower_case, includes_text, split,
  any, find, keep, change, take, if◌then◌else◌, ◌==◌, leb,
}
use booking_system.Store.Outbox.{
  Event, booking_created, booking_cancelled, booking_rejected, booking_auto_released, OutboxStatus,
  pending, processing, sent, failed,
}
use booking_system.Store.Booking.{Booking, BookingStatus}
use booking_system.SyncOutbox.{max_attempts, backoff_ms}
use booking_system.Leases.{Lease, claim_due}

pub data NotificationLocale : Type 0 where
  en zh_hant zh_hans : NotificationLocale

pub data NotificationTemplateType : Type 0 where
  confirmation cancellation reminder : NotificationTemplateType

abbrev pub same_type : NotificationTemplateType → NotificationTemplateType → Bool
same_type confirmation confirmation = true
same_type cancellation cancellation = true
same_type reminder reminder = true
same_type _ _ = false

unfoldable pub normalize_locale : Option Text → NotificationLocale
normalize_locale none = en
normalize_locale (some raw) =
    let v = trim raw in
    let lower = to_lower_case v in
    if is_empty raw || text_eq v (codes "en")
    then en
    else (if includes_text (codes "zh-tw" ∷ codes "zh-hk" ∷ codes "zh-hant" ∷ []) lower
        then zh_hant
        else (if includes_text (codes "zh-cn" ∷ codes "zh-sg" ∷ codes "zh-hans" ∷ codes "zh" ∷ [])
              lower
            then zh_hans
            else en))

-- The fields of users and resources that a mail reads.
pub record Recipient : Type 0 where
  pub id : ℕ
  pub tenant_id : ℕ
  pub username : Text
  pub email : Option Text
  pub locale : Option Text

pub record Place : Type 0 where
  pub id : ℕ
  pub tenant_id : ℕ
  pub name : Text
  pub location : Text

-- A dot with a character on each side.
abbrev has_inner_dot : Text → Bool
has_inner_dot [] = false
has_inner_dot (c ∷ []) = false
has_inner_dot (c ∷ (d ∷ s)) = (d == 46 && not (is_empty s)) || has_inner_dot (d ∷ s)

-- `EMAIL_RE`: no white space, one at sign, text before it, and after it a dot between two characters.
unfoldable pub is_email : Text → Bool
is_email s = not (any is_space s) && parts (split 64 s)
  where
    parts : List Text → Bool
    parts (user ∷ (domain ∷ [])) = not (is_empty user) && has_inner_dot domain
    parts _ = false

unfoldable pub resolve_email : Option Recipient → Option Text
resolve_email none = none
resolve_email (some u) =
    if is_email (or_else u.email [])
    then u.email
    else (if is_email u.username then some u.username else none)

pub record Vars : Type 0 where
  pub booking_id : ℕ
  pub user_id : ℕ
  pub locale : NotificationLocale
  pub user_name : Text
  pub resource_name : Text
  pub status : BookingStatus
  pub start_time : ℕ
  pub end_time : ℕ
  pub meeting_url : Text
  pub title : Text
  pub sequence : ℕ

pub record NotificationOutbox : Type 0 where
  pub id : ℕ
  pub tenant_id : ℕ
  pub booking_id : ℕ
  pub event : Event
  pub recipient_email : Text
  pub vars : Vars
  pub status : OutboxStatus
  pub attempt_count : ℕ
  pub next_attempt_at : ℕ
  pub sent_at : Option ℕ
  pub last_error : Option Text
  pub updated_at : ℕ

pub record NotificationTemplate : Type 0 where
  pub id : ℕ
  pub tenant_id : ℕ
  pub template_type : NotificationTemplateType
  pub subject : Text
  pub body_template : Text

-- The tenant's own template, or the default of `defaultTemplate(locale, type)`.
pub data Rendered : Type 0 where
  own : NotificationTemplate → Rendered
  default : NotificationLocale → NotificationTemplateType → Rendered

-- What a call of SmtpService.send sends for a row; `is_cancel` is the method of its calendar file.
pub record Mail : Type 0 where
  pub row : ℕ
  pub to : Text
  pub rendered : Rendered
  pub is_cancel : Bool

-- The tables, with the calls of the relay, each with its error if it failed, and of the push service.
pub record Notifications : Type 0 where
  pub recipients : List Recipient
  pub places : List Place
  pub templates : List NotificationTemplate
  pub rows : List NotificationOutbox
  pub attempts : List (Mail × Option Text)
  pub pushes : List (ℕ × NotificationTemplateType)
  pub next_id : ℕ

unfoldable pub template_type_for : Event → NotificationTemplateType
template_type_for booking_cancelled = cancellation
template_type_for booking_rejected = cancellation
template_type_for booking_auto_released = cancellation
template_type_for _ = confirmation

abbrev pub place_name : Option Place → Text
place_name none = []
place_name (some p) = if is_empty p.location then p.name else p.name ++ codes " — " ++ p.location

abbrev pub user_name : Option Recipient → Text
user_name none = []
user_name (some u) = u.username

abbrev pub locale_of : Option Recipient → Option Text
locale_of none = none
locale_of (some u) = u.locale

abbrev pub vars_of : Booking → Option Recipient → Option Place → Vars
vars_of b user place = record {
  booking_id = b.id;
  user_id = b.user_id;
  locale = normalize_locale (locale_of user);
  user_name = user_name user;
  resource_name = place_name place;
  status = b.status;
  start_time = b.start_time;
  end_time = b.end_time;
  meeting_url = b.meeting_url;
  title = b.title;
  sequence = b.version;
}

unfoldable pub new_row : ℕ → ℕ → ℕ → Event → Booking → Text → Vars → NotificationOutbox
new_row id now tenant event b email vars = record {
  id = id;
  tenant_id = tenant;
  booking_id = b.id;
  event = event;
  recipient_email = email;
  vars = vars;
  status = pending;
  attempt_count = 0;
  next_attempt_at = now;
  sent_at = none;
  last_error = none;
  updated_at = now;
}

-- Without an address nothing is queued.
abbrev pub add_row : ℕ → ℕ → Event → Booking → Vars → Option Text → Notifications → Notifications
add_row now tenant event b vars none n = n
add_row now tenant event b vars (some email) n = record n {
  rows = n.rows ++ (new_row n.next_id now tenant event b email vars ∷ []);
  next_id = n.next_id + 1;
}

unfoldable pub enqueue : ℕ → ℕ → Event → Booking → Notifications → Notifications
enqueue now tenant event b n =
    let user = find (λ (u : Recipient). u.id == b.user_id && u.tenant_id == tenant) n.recipients in
    let place = find (λ (p : Place). p.id == b.resource_id && p.tenant_id == tenant) n.places in
    add_row now tenant event b (vars_of b user place) (resolve_email user) n

abbrev pub mail_lease : Lease NotificationOutbox
mail_lease = record {
  id_of = λ (r : NotificationOutbox). r.id;
  due_of = λ (r : NotificationOutbox). r.next_attempt_at;
  status_of = λ (r : NotificationOutbox). r.status;
  updated_of = λ (r : NotificationOutbox). r.updated_at;
  mark = λ now (r : NotificationOutbox). record r { status = processing; updated_at = now };
}

abbrev pub rendered_with :
    Option NotificationTemplate → NotificationLocale → NotificationTemplateType → Rendered
rendered_with none locale type = default locale type
rendered_with (some t) locale type = own t

unfoldable pub render : List NotificationTemplate → NotificationOutbox → Rendered
render templates r =
    let type = template_type_for r.event in
    rendered_with
      (find
        (λ (t : NotificationTemplate). t.tenant_id == r.tenant_id && same_type t.template_type type)
        templates)
      r.vars.locale type

-- `buildIcs`: the events that take a booking off the calendar.
unfoldable pub is_cancel_event : Event → Bool
is_cancel_event booking_cancelled = true
is_cancel_event booking_rejected = true
is_cancel_event booking_auto_released = true
is_cancel_event _ = false

unfoldable pub mail_of : List NotificationTemplate → NotificationOutbox → Mail
mail_of templates r = record {
  row = r.id;
  to = r.recipient_email;
  rendered = render templates r;
  is_cancel = is_cancel_event r.event;
}

-- The row after an attempt, by the error of the relay. `lastError = undefined` leaves the column as it is.
unfoldable pub delivered : ℕ → Option Text → NotificationOutbox → NotificationOutbox
delivered now none r = record r { status = sent; sent_at = some now; updated_at = now }
delivered now (some e) r =
    if leb max_attempts (r.attempt_count + 1)
    then record r {
      status = failed;
      attempt_count = r.attempt_count + 1;
      last_error = some (take 1024 e);
      updated_at = now;
    }
    else record r {
      status = pending;
      attempt_count = r.attempt_count + 1;
      last_error = some (take 1024 e);
      next_attempt_at = now + backoff_ms (r.attempt_count + 1);
      updated_at = now;
    }

unfoldable pub save : NotificationOutbox → List NotificationOutbox → List NotificationOutbox
save r rows = change (λ (x : NotificationOutbox). x.id == r.id) (λ _. r) rows

module _ (smtp : Mail → Option Text) (push_configured : Bool) where
  abbrev pub deliver_push :
      Option Text
      → NotificationOutbox
      → List (ℕ × NotificationTemplateType)
      → List (ℕ × NotificationTemplateType)
  deliver_push (some e) r pushes = pushes
  deliver_push none r pushes =
      if push_configured then (r.vars.user_id, template_type_for r.event) ∷ pushes else pushes

  unfoldable pub deliver_one : ℕ → NotificationOutbox → Notifications → Notifications
  deliver_one now r n =
      let mail = mail_of n.templates r in
      let answer = smtp mail in
      record n {
        rows = save (delivered now answer r) n.rows;
        attempts = (mail, answer) ∷ n.attempts;
        pushes = deliver_push answer r n.pushes;
      }

  unfoldable pub deliver_all : ℕ → List NotificationOutbox → Notifications → Notifications
  deliver_all now [] n = n
  deliver_all now (r ∷ rs) n = deliver_all now rs (deliver_one now r n)

  -- A tick; its rows are those of the moment of the claim.
  unfoldable pub drain : ℕ → Notifications → Notifications
  drain now n =
      let (claimed, rows) = claim_due mail_lease now n.rows in
      deliver_all now claimed (record n { rows = rows })

unfoldable pub upsert_template :
    ℕ
    → NotificationTemplateType
    → Text
    → Text
    → List NotificationTemplate
    → ℕ
    → List NotificationTemplate
upsert_template tenant type subject body templates id =
    let is_own : NotificationTemplate → Bool =
      λ (t : NotificationTemplate). t.tenant_id == tenant && same_type t.template_type type in
    if any is_own templates
    then change is_own
        (λ (t : NotificationTemplate). record t { subject = subject; body_template = body })
        templates
    else templates
      ++ (record {
        id = id;
        tenant_id = tenant;
        template_type = type;
        subject = subject;
        body_template = body;
      }
          ∷ [])

-- The rows left, and whether one was deleted.
unfoldable pub delete_template :
    (tenant id : ℕ) → List NotificationTemplate → List NotificationTemplate × Bool
delete_template tenant id templates =
    let is_own : NotificationTemplate → Bool =
      λ (t : NotificationTemplate). t.id == id && t.tenant_id == tenant in
    (keep (λ t. not (is_own t)) templates, any is_own templates)
