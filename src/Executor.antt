-- ===== src/Executor.antt =====
-- cpp/src/executor.h: the paced walk over a table.
pub mod Batch
pub mod Walk
mod Tests
