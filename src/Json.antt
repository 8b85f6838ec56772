-- ===== src/Json.antt =====
-- The JSON values that tools return, and the size of their canonical text.
-- Numbers are integers: the model has no floating-point numbers.
mod Defs
mod Size
mod Text
mod Same
pub mod Equality
mod Tests
pub use Defs.*
unfoldable pub use Size.*
unfoldable pub use Same.*
unfoldable pub use Text.{dumps, int_text}
