-- ===== src/Examples.antt =====
-- Tests, and the theorems at concrete inputs.
mod Setup
mod Elections
mod Replicas
mod Logs
mod Nodes
mod Alone
mod Disks
mod Checks
mod Files
mod Wires
mod Queues
mod Simulations
