-- ===== src/Lifecycle.antt =====
-- apps/api/app/vnext/artifacts/lifecycle.py: the artifact.read observations of a
-- transcript.
mod Observe
mod Cover
mod Rewrite
pub mod Kept
mod Within
mod Reasons
pub mod Shown
mod Tests
unfoldable pub use Observe.*
unfoldable pub use Cover.*
unfoldable pub use Rewrite.*
