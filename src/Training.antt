-- ===== src/Training.antt =====
-- app/domains/training: the record of who has walked through the tour of the app.
pub mod Attempts
pub mod Done
pub mod Service
pub mod Turns
pub mod Sound
pub mod Mandate
mod Tests
