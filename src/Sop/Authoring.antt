-- ===== src/Sop/Authoring.antt =====
-- app/domains/sop/service.py: the authoring of checklists, whose items are kept version by version.
pub mod Tables
pub mod Patches
pub mod Rows
pub mod Service
pub mod Edits
pub mod Effects
pub mod Current
pub mod Bump
pub mod Items
pub mod Kept
pub mod History
pub mod Assignments
pub mod Apart
mod Tests
