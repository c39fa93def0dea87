-- ===== src/Election.antt =====
-- The votes and terms of one node (raft-core/src/node.rs).
pub mod Evidence
pub mod Steady
pub mod SteadyHandlers
pub mod Voting
pub mod VoteSteps
pub mod VoteEvents
pub mod Quorum
pub mod Kept
pub mod Tally
pub mod TallySteps
pub mod Count
