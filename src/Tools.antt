-- ===== src/Tools.antt =====
-- apps/api/app/vnext/tools/definition.py and apps/api/app/vnext/tools/registry.py: the tools an
-- agent may call, and the dispatch of its calls.
mod Definition
mod Registry
mod Execute
mod Dispatch
pub mod Bounds
pub mod Order
pub mod Answered
pub mod Batches
mod Tests
unfoldable pub use Definition.*
unfoldable pub use Registry.*
unfoldable pub use Execute.*
unfoldable pub use Dispatch.*
