-- ===== src/Budget.antt =====
-- apps/api/app/vnext/agent: the token budgets of model requests.
mod Limits
mod Output
mod Capacity
mod Compaction
pub mod Laws
mod Tests
pub use Limits.*
unfoldable pub use Output.*
unfoldable pub use Capacity.*
unfoldable pub use Compaction.*
