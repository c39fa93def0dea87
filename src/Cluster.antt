-- ===== src/Cluster.antt =====
-- Several nodes of raft-core/src/node.rs that exchange the messages which they send.
pub mod System
pub mod Invariant
pub mod Moves
pub mod Safety
pub mod Panics
pub mod Ledgers
pub mod Ruling
pub mod Entering
pub mod Starts
pub mod Matching
