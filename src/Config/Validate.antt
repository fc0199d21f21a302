-- ===== src/Config/Validate.antt =====
-- internal/config/profile.go: the validation of a profile.
pub mod Outcomes
pub mod Asks
pub mod Rules
pub mod Profiles
pub mod Against
pub mod Sound
pub mod Owner
pub mod AskSound
pub mod OutcomeSound
