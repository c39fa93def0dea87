-- ===== src/Sim/Construction.antt =====
-- raft-sim/src/simulator.rs: `Simulator::new`, with the configurations and disks that it makes.
use raft_rupee.Base.{
  ℕ, zero, suc, ◌+◌, List, [], ◌∷◌, Option, none, some, ◌==◌, if◌then◌else◌, HashMap, empty_map,
  map_insert,
}
use raft_rupee.Types.{NodeId}
use raft_rupee.Node.State.{Config}
use raft_rupee.Sim.Disk.{StableDisk, persist}
use raft_rupee.Sim.Disk
use raft_rupee.Sim.Invariants.{SafetyInvariants, Verdict, verify_safety}
use raft_rupee.Sim.Invariants
use raft_rupee.Sim.Network.{Chance, new_network}
use raft_rupee.Sim.Simulator.{World, Simulator, spawn}

-- The ids `1..=num_nodes`: `n` of them from `i` on.
unfoldable pub ids_from : ℕ → ℕ → List NodeId
ids_from i zero = []
ids_from i (suc n) = i ∷ ids_from (i + 1) n

unfoldable pub other_ids : NodeId → List NodeId → List NodeId
other_ids id [] = []
other_ids id (p ∷ rest) = if p == id then other_ids id rest else p ∷ other_ids id rest

unfoldable pub new_config : List NodeId → NodeId → ℕ → Config
new_config node_ids id rng_seed = record {
  id = id;
  peers = other_ids id node_ids;
  election_timeout_ticks = 15;
  heartbeat_interval_ticks = 4;
  rng_seed = rng_seed;
}

-- The configurations of the ids that are left, and the generator after them.
unfoldable pub new_configs : Chance → List NodeId → List NodeId → ℕ → List Config × ℕ
new_configs ch node_ids [] g = ([], g)
new_configs ch node_ids (id ∷ rest) g =
    let drawn = ch.gen g in
    let others = new_configs ch node_ids rest drawn.1 in
    (new_config node_ids id drawn.0 ∷ others.0, others.1)

unfoldable pub new_disks : List NodeId → HashMap StableDisk
new_disks [] = empty_map
new_disks (id ∷ rest) = map_insert id (Disk.new id) (new_disks rest)

unfoldable pub spawn_all : World → List Config → Simulator → Option Simulator
spawn_all w [] sim = some sim
spawn_all w (config ∷ rest) sim = elim (spawn w config.id sim) [
  | none ↦ none
  | some next ↦ spawn_all w rest next
]

-- The simulator before any node is alive.
unfoldable pub unspawned : World → ℕ → ℕ → Simulator
unspawned w seed num_nodes =
    let node_ids = ids_from 1 num_nodes in
    let configs = new_configs w.chance node_ids node_ids (w.chance.seed_from_u64 seed) in
    record {
      seed = seed;
      rng = configs.1;
      nodes = [];
      disks = new_disks node_ids;
      network = new_network w.chance;
      invariants = Invariants.new;
      tick_count = 0;
      node_configs = configs.0;
    }

-- `Simulator::new`
unfoldable pub new : World → ℕ → ℕ → Option Simulator
new w seed num_nodes = let sim = unspawned w seed num_nodes in spawn_all w sim.node_configs sim
