-- ===== src/RunState.antt =====
-- apps/api/app/vnext/product/run_state.py: the lifecycle projection of one chat run.
-- Instants and durations are in microseconds. An aware datetime is its UTC instant, so the
-- conversions to UTC keep it.
mod Model
mod Fields
mod Create
mod Execution
mod Answer
mod Persistence
mod Calls
pub mod Equality
pub mod Invariant
pub mod History
pub mod Recorded
mod Tests
pub use Model.*
unfoldable pub use Fields.*
unfoldable pub use Create.*
unfoldable pub use Execution.*
unfoldable pub use Answer.*
unfoldable pub use Persistence.*
unfoldable pub use Calls.*
