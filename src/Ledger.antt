-- ===== src/Ledger.antt =====
-- The entries that the leaders of raft-core/src/node.rs create, each with the term of the entry
-- before it, and how the logs and the messages of the nodes follow them.
pub mod Chain
pub mod Edits
pub mod Lawful
pub mod Sends
pub mod Elections
pub mod Campaigns
pub mod Appends
pub mod Events
pub mod Steps
pub mod Match
