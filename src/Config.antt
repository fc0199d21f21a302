-- ===== src/Config.antt =====
-- internal/config: profiles and counters.
pub mod Types
pub mod Outcome
pub mod Names
pub mod Counters
pub mod Snapshot
pub mod Produced
pub mod File
pub mod Environment
pub mod Load
pub mod Validate
