-- ===== src/Liveness.antt =====
-- What a node of raft-core/src/node.rs gets done: its election timer, and a cluster of one node.
pub mod Timer
pub mod Alone
pub mod OneNode
