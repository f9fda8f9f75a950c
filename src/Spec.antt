-- ===== src/Spec.antt =====
-- cpp/src/spec.h: migration specifications and their checks.
pub mod Checks
pub mod Kinds
pub mod Keys
pub mod Parse
pub mod Document
mod Tests
