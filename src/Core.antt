-- ===== src/Core.antt =====
-- crates/core/src: the vocabulary that the other parts share.
pub mod Values
mod Schema
mod Errors
mod Ids
unfoldable pub use Values.*
pub use Schema.*
pub use Errors.*
unfoldable pub use Ids.*
