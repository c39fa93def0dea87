-- ===== src/Node.antt =====
-- raft-core/src/node.rs: the consensus state machine of one node.
pub mod State
pub mod Replicate
pub mod Commit
pub mod Election
pub mod Entries
pub mod Snapshot
pub mod Step
