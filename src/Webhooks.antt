-- ===== src/Webhooks.antt =====
-- modules/webhooks: subscriptions, the check of their targets and the outbox of deliveries.
pub mod Url
pub mod Service
pub mod Deliveries
