-- ===== src/Server.antt =====
-- The server of raft-server: its files and its frames.
pub mod Bytes
pub mod Os
pub mod Rounding
pub mod Storage
pub mod Entry
pub mod Found
pub mod Replay
pub mod Contents
pub mod Wal
pub mod Codec
pub mod Frames
pub mod Partial
pub mod Main
pub mod Connection
pub mod Sends
pub mod Client
pub mod Recovery
pub mod Loop
pub mod Zeros
pub mod HardState
pub mod Truncation
