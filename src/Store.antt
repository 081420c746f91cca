-- ===== src/Store.antt =====
-- The tables that the services share, one record for each entity of the database.
-- An identifier (uuid, token) is a number, 0 standing for the empty string; a timestamp is the
-- milliseconds since the epoch. `created_at` and `updated_at` are kept where code reads them.
pub mod Booking
pub mod Resource
pub mod Tenant
pub mod Approval
pub mod Outbox
pub mod Db
