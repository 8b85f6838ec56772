-- ===== src/TaskState.antt =====
-- apps/api/app/vnext/agent/task_state.py: task plans, checkpoints and the observations behind them.
mod Model
mod Sources
mod Plan
mod Coordinator
pub mod Created
pub mod Serial
pub mod Claims
pub mod History
mod Tests
pub use Model.*
unfoldable pub use Sources.*
unfoldable pub use Plan.*
unfoldable pub use Coordinator.*
