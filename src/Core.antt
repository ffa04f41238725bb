-- ===== src/Core.antt =====
-- app/core: what every domain shares.
pub mod Enums
pub mod Float
pub mod Scoring
pub mod Access
pub mod Identity
mod Tests
pub mod BusinessDate
pub mod ActorToken
pub mod Hardening
