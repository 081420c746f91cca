-- ===== src/Webhooks/Service.antt =====
-- webhooks.service.ts: subscriptions and the outbox of their deliveries. The JSON of a payload is a number; the secret
-- from `crypto.randomBytes` is an argument.
use booking_system.Base.{
  ℕ, zero, suc, ◌+◌, Bool, true, not, ◌&&◌, Option, none, some, or_else, List, [], ◌∷◌, ◌++◌, take,
  find, keep, change, Text, codes, text_eq, includes_text, if◌then◌else◌, ◌==◌, leb, ltb, Result,
  ok, err, ◌>>=◌, ◌>>◌, or_throw, not_found,
}
use booking_system.Store.Outbox.{OutboxStatus, pending, processing, sent, failed}
use booking_system.SyncOutbox.{backoff_ms, max_attempts}
use booking_system.Leases.{Lease, claim_due}

-- modules/webhooks/webhook.entity.ts
pub record Webhook : Type 0 where
  pub id : ℕ
  pub tenant_id : ℕ
  pub target_url : Text
  pub secret : Text
  pub events : List Text
  pub is_active : Bool

pub record WebhookDelivery : Type 0 where
  pub id : ℕ
  pub tenant_id : ℕ
  pub subscription_id : ℕ
  pub event : Text
  pub payload : ℕ
  pub status : OutboxStatus
  pub attempt_count : ℕ
  pub last_status : Option ℕ
  pub last_error : Text
  pub next_attempt_at : ℕ
  pub delivered_at : Option ℕ
  pub updated_at : ℕ

-- The two tables, and the deliveries that were posted, the last one first.
pub record Hooks : Type 0 where
  pub subs : List Webhook
  pub deliveries : List WebhookDelivery
  pub posted : List WebhookDelivery
  pub next_id : ℕ

abbrev pub default_events : List Text
default_events =
    codes "booking.created"
    ∷ codes "booking.updated"
    ∷ codes "booking.cancelled"
    ∷ codes "booking.approved"
    ∷ codes "booking.rejected"
    ∷ codes "weather.signal"
    ∷ []

-- `events?.length ? events : DEFAULT_EVENTS`
abbrev pub events_or_default : List Text → List Text
events_or_default [] = default_events
events_or_default (e ∷ es) = e ∷ es

abbrev pub is_sub : ℕ → ℕ → Webhook → Bool
is_sub tenant id w = w.id == id && w.tenant_id == tenant

abbrev pub matches : ℕ → Text → Webhook → Bool
matches tenant event w = w.tenant_id == tenant && w.is_active && includes_text w.events event

abbrev pub new_delivery : ℕ → ℕ → Text → ℕ → ℕ → Webhook → WebhookDelivery
new_delivery now tenant event payload id w = record {
  id = id;
  tenant_id = tenant;
  subscription_id = w.id;
  event = event;
  payload = payload;
  status = pending;
  attempt_count = 0;
  last_status = none;
  last_error = [];
  next_attempt_at = now;
  delivered_at = none;
  updated_at = now;
}

-- One row for each matching subscription, with fresh ids.
unfoldable pub fan_out : ℕ → ℕ → Text → ℕ → List Webhook → Hooks → Hooks
fan_out now tenant event payload [] h = h
fan_out now tenant event payload (w ∷ ws) h = fan_out now tenant event payload ws (record h {
  deliveries = new_delivery now tenant event payload h.next_id w ∷ h.deliveries;
  next_id = suc h.next_id;
})

unfoldable pub enqueue : ℕ → ℕ → Text → ℕ → Hooks → Hooks
enqueue now tenant event payload h =
    fan_out now tenant event payload (keep (matches tenant event) h.subs) h

unfoldable pub delete : ℕ → ℕ → Hooks → Result Hooks
delete tenant id h = do
  w ← or_throw (find (is_sub tenant id) h.subs) not_found
  ok (record h { subs = keep (λ (w : Webhook). not (is_sub tenant id w)) h.subs })

-- How the claim sees a delivery.
abbrev pub delivery_lease : Lease WebhookDelivery
delivery_lease = record {
  id_of = λ (d : WebhookDelivery). d.id;
  due_of = λ (d : WebhookDelivery). d.next_attempt_at;
  status_of = λ (d : WebhookDelivery). d.status;
  updated_of = λ (d : WebhookDelivery). d.updated_at;
  mark = λ now (d : WebhookDelivery). record d { status = processing; updated_at = now };
}

-- The row of a subscription that is missing or inactive.
abbrev pub orphaned : ℕ → WebhookDelivery → WebhookDelivery
orphaned now d = record d {
  status = failed;
  last_error = codes "subscription missing or inactive";
  updated_at = now;
}

-- The row after a target that failed the check at send time; `last_error` without the check's message.
unfoldable pub rejected : ℕ → WebhookDelivery → WebhookDelivery
rejected now d =
    let counted = record d {
      attempt_count = d.attempt_count + 1;
      last_error = codes "target failed safety re-validation";
      updated_at = now;
    } in
    if leb max_attempts (d.attempt_count + 1)
    then record counted { status = failed }
    else record counted { status = pending; next_attempt_at = now + 1800000 }

-- What the target answers: a status and the text of an error, or no answer.
pub record Response : Type 0 where
  pub status : ℕ
  pub error : Text

-- `status || null`
abbrev pub status_or_null : ℕ → Option ℕ
status_or_null zero = none
status_or_null (suc n) = some (suc n)

-- The row after an attempt.
unfoldable pub attempted : ℕ → Response → WebhookDelivery → WebhookDelivery
attempted now r d =
    let counted = record d {
      attempt_count = d.attempt_count + 1;
      last_status = status_or_null r.status;
      last_error = take 1024 r.error;
      updated_at = now;
    } in
    if leb 200 r.status && ltb r.status 300
    then record counted { status = sent; delivered_at = some now }
    else if leb max_attempts (d.attempt_count + 1)
    then record counted { status = failed }
    else record counted {
      status = pending;
      next_attempt_at = now + backoff_ms (d.attempt_count + 1);
    }

abbrev pub save_delivery : WebhookDelivery → Hooks → Hooks
save_delivery d h = record h {
  deliveries = change (λ (x : WebhookDelivery). x.id == d.id) (λ _. d) h.deliveries;
}

module _ (validate : Text → Result (Unit {0})) where
  abbrev pub created : ℕ → Text → List Text → Text → Hooks → Webhook
  created tenant target events secret h = record {
    id = h.next_id;
    tenant_id = tenant;
    target_url = target;
    secret = codes "whsec_" ++ secret;
    events = events_or_default events;
    is_active = true;
  }

  unfoldable pub create : ℕ → Text → List Text → Text → Hooks → Result (Webhook × Hooks)
  create tenant target events secret h =
      validate target
      >> ok (
        created tenant target events secret h,
        record h { subs = created tenant target events secret h ∷ h.subs; next_id = suc h.next_id },
      )

  -- The new target, which is checked where it differs.
  abbrev pub retarget : Option Text → Webhook → Result Webhook
  retarget none w = ok w
  retarget (some url) w =
      if text_eq url w.target_url then ok w else validate url >> ok (record w { target_url = url })

  unfoldable pub update :
      ℕ → ℕ → Option Text → Option (List Text) → Option Bool → Hooks → Result Hooks
  update tenant id target events active h = do
    w ← or_throw (find (is_sub tenant id) h.subs) not_found
    w' ← retarget target w
    let edited = record w' {
      events = or_else events w'.events;
      is_active = or_else active w'.is_active;
    }
    ok (record h { subs = change (λ (x : Webhook). x.id == w.id) (λ _. edited) h.subs })

  module _ (post : Webhook → WebhookDelivery → Response) where
    abbrev pub checked : ℕ → Webhook → WebhookDelivery → Result (Unit {0}) → Hooks → Hooks
    checked now w d (err e) h = save_delivery (rejected now d) h
    checked now w d (ok u) h =
        save_delivery (attempted now (post w d) d) (record h { posted = d ∷ h.posted })

    abbrev pub deliver_to : ℕ → WebhookDelivery → Option Webhook → Hooks → Hooks
    deliver_to now d none h = save_delivery (orphaned now d) h
    deliver_to now d (some w) h =
        if w.is_active
        then checked now w d (validate w.target_url) h
        else save_delivery (orphaned now d) h

    unfoldable pub deliver_one : ℕ → WebhookDelivery → Hooks → Hooks
    deliver_one now d h =
        deliver_to now d (find (λ (w : Webhook). w.id == d.subscription_id) h.subs) h

    unfoldable pub deliver_all : ℕ → List WebhookDelivery → Hooks → Hooks
    deliver_all now [] h = h
    deliver_all now (d ∷ ds) h = deliver_all now ds (deliver_one now d h)

    unfoldable pub drain : ℕ → Hooks → Hooks
    drain now h =
        let (claimed, rows) = claim_due delivery_lease now h.deliveries in
        deliver_all now claimed (record h { deliveries = rows })
