-- ===== src/Witnesses.antt =====
-- Concrete profiles, messages and pools, and the theorems applied to them.
pub mod Data
pub mod Judging
pub mod Validation
pub mod State
pub mod Requests
pub mod Settings
