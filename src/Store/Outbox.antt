-- ===== src/Store/Outbox.antt =====
-- modules/sync-outbox/sync-outbox.entity.ts
use booking_system.Base.{ℕ, Option, Text}

-- BOOKING_CREATED, BOOKING_UPDATED and BOOKING_CANCELLED, and the events of the mails.
pub data Event : Type 0 where
  booking_created booking_updated booking_cancelled : Event
  booking_approved booking_rejected booking_auto_released : Event

pub data OutboxStatus : Type 0 where
  pending processing sent failed : OutboxStatus

pub record SyncOutbox : Type 0 where
  pub id : ℕ
  pub tenant_id : ℕ
  pub booking_id : ℕ
  pub event : Event
  pub status : OutboxStatus
  pub attempt_count : ℕ
  pub next_attempt_at : ℕ
  pub sent_at : Option ℕ
  pub last_error : Option Text
  pub updated_at : ℕ
