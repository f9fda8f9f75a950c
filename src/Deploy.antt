-- ===== src/Deploy.antt =====
-- cpp/src/deploy.h: `Deployment`, which applies a listing.
pub mod Group
pub mod Run
pub mod Chain
mod Tests
