-- ===== src/Sop.antt =====
-- app/domains/sop and the missed-run job: checklists, their runs, the review of runs.
pub mod Store
pub mod Status
pub mod Floor
pub mod Integrity
pub mod Background
pub mod Runs
pub mod Review
pub mod Exceptions
mod Tests
pub mod Materialise
pub mod Sweep
pub mod Lifecycle
pub mod Authoring
