-- ===== src/Jobs.antt =====
-- libs/jobs: the background jobs.
pub mod Model
pub mod Repository
pub mod Service
mod History
mod Tests
