-- ===== src/Repository/Tests.antt =====
-- Runs of the repository's definitions on small listings, and each theorem at one of them.
pub mod Data
mod Gates
mod Order
mod Drift
