-- ===== src/Session.antt =====
-- apps/api/app/vnext/product/session_history.py: the execution history of one chat session.
mod Model
mod Locators
mod Requests
mod Commit
mod Calls
pub mod Invariant
pub mod Keeps
pub mod Committed
pub mod Laws
pub mod Shrinks
pub mod Handover
mod Tests
pub use Model.*
unfoldable pub use Locators.*
unfoldable pub use Requests.*
unfoldable pub use Commit.*
unfoldable pub use Calls.*
