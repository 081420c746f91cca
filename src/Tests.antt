-- ===== src/Tests.antt =====
-- The theorems at concrete inputs, and runs of the code.
mod Data
mod Bookings
mod Approvals
mod Outbox
mod Guards
mod Common
mod Pods
mod Recurrence
mod Permissions
mod Kiosk
mod Notifications
mod Visitors
mod Webhooks
