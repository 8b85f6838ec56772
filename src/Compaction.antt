-- ===== src/Compaction.antt =====
-- apps/api/app/vnext/agent/evidence_summary_lifecycle.py: which part of a session's history a
-- compaction may replace.
mod Bytes
mod Groups
mod Select
mod Requests
pub mod Cover
pub mod Loop
pub mod Boundary
pub mod Range
pub mod Prepare
mod Tests
unfoldable pub use Bytes.*
unfoldable pub use Groups.*
unfoldable pub use Select.*
unfoldable pub use Requests.*
