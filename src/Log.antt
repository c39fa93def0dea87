-- ===== src/Log.antt =====
-- raft-core/src/log.rs: the log of a node.
mod Defs
pub mod Bounds
pub mod Edits
unfoldable pub use Defs.*
