-- ===== src/Users.antt =====
-- app/domains/users: who may do what to whom, and the administration of people.
pub mod Permissions
pub mod Store
pub mod Repository
pub mod Admin
mod Tests
