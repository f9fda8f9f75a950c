-- ===== src/Trust.antt =====
-- cpp/src/trust.h, and what it uses of cpp/src/config.h and cpp/src/ledger.h: whose signature counts.
pub mod Base64
pub mod Entries
pub mod Gates
mod Tests
