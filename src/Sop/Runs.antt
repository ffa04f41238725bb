-- ===== src/Sop/Runs.antt =====
-- The floor's flow of app/domains/sop/runs_service.py: start, answer, photo, submit. A handler reads
-- and returns the database; one that raises leaves it as it was, since the session is rolled back.
-- `now` is the time of the call, for the clock of the service and of Postgres.
mod Defs
pub mod Submit
unfoldable pub use Defs.*
