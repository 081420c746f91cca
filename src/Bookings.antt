-- ===== src/Bookings.antt =====
-- modules/bookings: the booking service and the services around it.
pub mod Validator
pub mod Hours
pub mod Rules
pub mod Conflict
pub mod Create
pub mod Update
pub mod Cancel
pub mod Checkin
pub mod AutoRelease
pub mod NoOverlap
pub mod History
pub mod Recurrence
