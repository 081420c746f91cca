-- ===== src/Bookings/NoOverlap.antt =====
-- No two bookings hold the same space at one instant: the promise of the booking service, stated
-- over instants and rooms and without the code's query.
pub mod Writes
pub mod Checked
pub mod Create
pub mod Pods
pub mod Update
pub mod Lifecycle
