-- ===== src/Recovery.antt =====
-- apps/api/app/vnext/agent/generation_recovery.py: the history of a rejected batch of tool calls.
mod Rejected
pub mod Paired
mod Tests
unfoldable pub use Rejected.*
