-- ===== src/Artifacts.antt =====
-- apps/api/app/vnext/artifacts: stored tool responses and bounded views of them.
mod Errors
pub mod Store
pub mod Paths
pub mod Read
pub mod Observation
pub mod Process
pub mod Grep
mod Tests
pub use Errors.*
