-- ===== src/Store/Db.antt =====
-- The database as the services see it, with what they send to the outside.
-- A service method that throws leaves it unchanged. Fresh uuids come from `next_id`.
use booking_system.Base.{ℕ, ◌&&◌, Option, List, ◌∷◌, find, change, ◌==◌}
use booking_system.Store.Booking.{Booking}
use booking_system.Store.Resource.{Resource}
use booking_system.Store.Tenant.{User, Department, Customization, Holiday}
use booking_system.Store.Approval.{ApprovalRule, ApprovalStep, Approval}
use booking_system.Store.Outbox.{Event}

-- The `type` of a realtime message.
pub data Realtime : Type 0 where
  created rescheduled cancelled checked_in no_show attended : Realtime

-- A call of RealtimeGateway.emit, SyncOutboxService.enqueue or NotificationsService.enqueue, with
-- the booking's id.
pub data Effect : Type 0 where
  emit : Realtime → ℕ → Effect
  sync : Event → ℕ → Effect
  notify : Event → ℕ → Effect

-- `customization` is CustomizationService.get, which always returns a document.
pub record Db : Type 0 where
  pub bookings : List Booking
  pub resources : List Resource
  pub users : List User
  pub departments : List Department
  pub holidays : List Holiday
  pub customization : ℕ → Customization
  pub rules : List ApprovalRule
  pub steps : List ApprovalStep
  pub approvals : List Approval
  pub effects : List Effect
  pub next_id : ℕ

-- `findOne({ where: { id, tenantId } })`
abbrev pub find_booking : Db → ℕ → ℕ → Option Booking
find_booking db tenant id = find (λ b. b.id == id && b.tenant_id == tenant) db.bookings

abbrev pub find_resource : Db → ℕ → ℕ → Option Resource
find_resource db tenant id = find (λ r. r.id == id && r.tenant_id == tenant) db.resources

abbrev pub find_user : Db → ℕ → ℕ → Option User
find_user db tenant id = find (λ u. u.id == id && u.tenant_id == tenant) db.users

abbrev pub find_department : Db → ℕ → ℕ → Option Department
find_department db tenant id = find (λ d. d.id == id && d.tenant_id == tenant) db.departments

-- `save(b)` of a loaded row.
abbrev pub save_booking : Db → Booking → Db
save_booking db b = record db {
  bookings = change (λ (c : Booking). c.id == b.id) (λ _. b) db.bookings;
}

abbrev pub send : Effect → Db → Db
send e db = record db { effects = e ∷ db.effects }
