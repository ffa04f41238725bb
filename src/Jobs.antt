-- ===== src/Jobs.antt =====
-- app/jobs: how a piece of background work is run and recorded.
pub mod Runner
