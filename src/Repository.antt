-- ===== src/Repository.antt =====
-- cpp/src/repository.h: a directory of signed specifications, classified against the ledgers of
-- the databases that they target, ordered by `depends_on` and grouped for concurrency.
pub mod Status
pub mod Types
pub mod Classify
pub mod Views
pub mod Order
pub mod Parallel
pub mod Scan
pub mod Drift
pub mod Assemble
pub mod Tests
