-- ===== src/Replication.antt =====
-- What replication (raft-core/src/node.rs, raft-core/src/log.rs) guarantees of one node's log.
pub mod Acked
pub mod Advance
pub mod Applied
pub mod Conflict
pub mod Attach
pub mod Accept
pub mod Leader
pub mod AppendOnly
