-- ===== src/Jobs.antt =====
-- cpp/src/jobs.h: the ceiling on operations, and the observer that paces the jobs.
pub mod Gate
pub mod Pacing
mod Tests
