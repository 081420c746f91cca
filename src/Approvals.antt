-- ===== src/Approvals.antt =====
-- modules/approvals: approval chains and decisions.
pub mod Chain
pub mod Grade
pub mod Eligibility
pub mod Decide
pub mod Sweeps
pub mod Delegate
