-- ===== src/Model.antt =====
-- internal/model: the domain types.
pub mod Int
pub mod Spec
pub mod Validity
pub mod Checked
pub mod Naming
pub mod Records
pub mod Places
pub mod Timer
pub mod Daily
pub mod Seconds
pub mod Recurring
