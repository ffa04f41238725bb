-- ===== src/Sop/Lifecycle.antt =====
-- The life of a run, across the floor's handlers, the reviewer's and the two jobs: what any sequence
-- of calls that go through keeps. A call that raises changes nothing.
pub mod Rows
pub mod Effects
pub mod Passes
pub mod Orderly
pub mod Steps
pub mod Final
pub mod Complete
pub mod Answers
pub mod Board
pub mod Notes
