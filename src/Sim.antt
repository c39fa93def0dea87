-- ===== src/Sim.antt =====
-- raft-sim: the stable storage of a node, and the checks of the simulator.
pub mod Disk
pub mod Writes
pub mod Quiet
pub mod Tracking
pub mod Sync
pub mod SyncSteps
pub mod Follows
pub mod Network
pub mod Simulator
pub mod Construction
pub mod Delivery
pub mod Drain
pub mod Refines
pub mod Perform
pub mod Terms
pub mod Steps
pub mod Runs
pub mod Spawning
pub mod Start
pub mod Started
pub mod Simulation
pub mod Cluster
pub mod Invariants
pub mod Checks
pub mod Total
pub mod Matching
