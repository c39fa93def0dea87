-- ===== src/Progress.antt =====
-- The invariant of a node of raft-core/src/node.rs, over its entry points.
pub mod Sound
pub mod Commits
pub mod Elections
pub mod Entries
pub mod Steps
pub mod Events
