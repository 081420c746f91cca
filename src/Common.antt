-- ===== src/Common.antt =====
-- The helpers under backend/src/common that the services share.
pub mod Tz
pub mod Calendar
pub mod OperatingHours
pub mod Roles
