-- ===== src/Base/Text.antt =====
-- JavaScript strings and their laws.
mod Defs
mod Eq
mod Parts
mod Trim
unfoldable pub use Defs.*
unfoldable pub use Eq.*
unfoldable pub use Parts.*
unfoldable pub use Trim.*
