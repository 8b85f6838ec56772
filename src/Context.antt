-- ===== src/Context.antt =====
-- apps/api/app/vnext/product/context.py: the dialogue that a new session starts from.
mod Build
pub mod Suffix
mod Tests
unfoldable pub use Build.*
