-- ===== src/Lib.antt =====
-- A verification of the Raft implementation of this repository: raft-core, the state machine of one
-- node that a driver feeds with clock ticks and messages and that answers with actions; of raft-sim, a
-- driver over a simulated network with its safety checks; and of raft-server, a driver over files and
-- sockets, with its client.
--
-- How the parts interact: `RaftNode` (raft-core/src/node.rs) keeps the term, the vote, the role, the
-- timers and a `RaftLog` (raft-core/src/log.rs). Its entry points `tick`, `step` and `propose` change
-- the node and return the `Action`s that the driver carries out: messages to send
-- (raft-core/src/message.rs), a hard state or log entries to store, entries to apply.
--
-- Which file models what:
--   Types, Message       raft-core/src/types.rs and message.rs
--   Log.Defs             every method of `RaftLog`
--   Node.State           `Role`, `Action`, `Config`, `RaftNode`, `new`, `restore`, the timeouts
--   Node.Election        `become_follower`, `start_pre_vote`, `start_real_election`, `become_leader`
--                        and the four vote handlers
--   Node.Entries         `handle_append_entries` and `handle_append_entries_response`
--   Node.Commit          `maybe_advance_commit_index`, `apply_committed_entries`
--   Node.Replicate       `replicate_to_peer` and the broadcasts
--   Node.Snapshot        `compact_logs` and the two InstallSnapshot handlers
--   Node.Step            `tick`, `step`, `propose`
--   Sim.Disk             raft-sim/src/storage.rs (`StableDisk`), and for one node and its disk the
--                        restart and the writes of raft-sim/src/simulator.rs
--   Sim.Invariants       raft-sim/src/invariants.rs, the checks after each tick of the simulation
--   Sim.Network          raft-sim/src/network.rs (`SimNetwork`)
--   Sim.Simulator, Sim.Construction   raft-sim/src/simulator.rs (`Simulator`), and its `new`
--   Server.Rounding      the size of an `AlignedBuffer` of raft-server/src/storage.rs
--   Server.Os            the files, the memory and the system calls that it uses
--   Server.Storage       every operation of its `DurableDisk`
--   Server.Codec         raft-server/src/codec.rs, the frames of messages
--   Server.Main          raft-server/src/main.rs: recovery and `process_actions`
--   Server.Loop          one turn of its main loop
--   Server.Client        raft-client/src/main.rs
--   Base                 the helpers that all share: Boolean tests, lists, options, maps, u64 words
--
-- What the other files are about:
--   Log.Bounds, Log.Edits    the invariant of a log, and what each operation does to its slots
--   Election                 the votes that a node casts, stores and counts
--   Cluster                  any number of nodes over a network that loses, repeats, delays and
--                            reorders messages, with restarts from the stored hard state
--   Ledger                   the entries that leaders create, and how logs and messages follow them
--   Replication              committing, applying, going back after a conflict, storing an append
--   Progress                 the invariant of a node, over its entry points
--   Liveness                 the election timer, and a cluster of one node
--   Sim.Writes ... Follows   the disk of a node against the node
--   Sim.Checks, Matching, Total   what the checks accept and find, and their panics
--   Sim.Drain                     what the network of a simulation delivers
--   Sim.Terms                     the test that a simulation does not use up its terms
--   Sim.Delivery ... Cluster      a simulation against the cluster
--   Server.Bytes             integers as bytes in the two byte orders
--   Server.Entry, Found, Replay, Contents, Zeros   the format of the log file, and its replay
--   Server.Wal, Truncation, HardState              what is written, with system calls that fail
--   Server.Recovery          what a start of the server recovers
--   Server.Frames, Partial, Connection, Sends      messages on a connection, sent and received
--   Examples                 runs of concrete nodes, and the theorems at concrete inputs
--
-- How the code is rendered: a method on `&mut self` is a function from a `RaftNode`; one that pushes
-- actions returns them beside the new node (`Outcome`). A method that can panic returns an `Option`,
-- and `none` is the panic: of `RaftLog::truncate_and_append`, hence of `step`, of `RaftNode::new`, and
-- of the writes of a disk.
-- The build is a release build: sums of u64 wrap at 2 ^ 64 and a `debug_assert` is no code.
-- A `usize` is as wide as a u64. The Vec of a log, which is never empty, is its first entry and the
-- list of the others. A HashMap is a function to Option, a HashSet a list without repetition. The
-- crate `rand` is the parameter `Rng`, about which nothing is assumed; its panic on an empty range
-- cannot occur, since `RaftNode::new` makes the base timeout at least 1 and nothing changes it. Offsets
-- and payloads are kept as they are; the trait implementations for printing and serialisation are left out.
-- A simulation keeps its nodes in the order in which their map yields them; its f64 rates are numbers
-- that only the generator reads, and the heap's choice among messages of one tick is a parameter.
-- A file is the list of its bytes, and a system call that succeeds transfers all of its bytes. The
-- parameters of the server are crc32fast and bincode, what fresh memory holds, which system calls fail
-- and which connections open; a theorem names what it assumes of them. An error is a value beside the
-- files as they were left. A non-blocking stream is what has arrived, what has been handed over and the
-- room for more; a read that cannot be met loses what it has read.
--
-- Bounds and fuel: the loops of the node are structural recursions. The `while` after a conflict goes
-- down from an index; the searches for a commit index and for the last entry of a term take the number
-- of rounds that their ranges have. The replay of a log file takes as many rounds as the file has bytes
-- and one more, and each round takes 24 bytes; the delivery of the simulator takes as many as messages
-- are in flight, one in a round. A cluster leaves out the runs in which a term reaches 2 ^ 64 - 1,
-- the theorem on simulations excludes them by a test on the run, and the theorems on logs say where
-- they need an index below 2 ^ 64.
--
-- Not modelled: opening the files and the listener, the reading of arguments, printing and sleeping;
-- reads and writes of the system that transfer a part; the panics of allocation, of `rand` on a rate that is no
-- probability, and of `set_nonblocking`; tests, benchmarks and scripts.
pub mod Base
pub mod Types
pub mod Message
pub mod Log
pub mod Node
pub mod Election
pub mod Cluster
pub mod Replication
pub mod Ledger
pub mod Progress
pub mod Liveness
pub mod Sim
pub mod Server
mod Examples
