-- ===== src/Sim/Simulator.antt =====
-- raft-sim/src/simulator.rs: `Simulator`. Its map of nodes is the list of its pairs, in the order in
-- which it yields them; the map of disks is a function. `none` is a panic.
use raft_rupee.Base.{
  ℕ, List, [], ◌∷◌, map, Option, none, some, Bool, true, false, ltb, ◌==◌, if◌then◌else◌, HashMap,
  map_insert, unwrap_or, add64,
}
use raft_rupee.Types.{NodeId, zero_term}
use raft_rupee.Message.{Bytes, Message}
use raft_rupee.Log.{len, term_at}
use raft_rupee.Node.State.{Rng, Config, RaftNode, Action, Outcome, is_leader}
use raft_rupee.Node.Snapshot.{compact_logs}
use raft_rupee.Node.Step
use raft_rupee.Sim.Disk.{StableDisk, persist}
use raft_rupee.Sim.Disk
use raft_rupee.Sim.Invariants.{SafetyInvariants, Verdict, verify_safety}
use raft_rupee.Sim.Network.{Chance, Peek, SimNetwork, new_network, drain_due, partition, heal_all}
use raft_rupee.Sim.Network

-- The nodes that are alive.
abbrev pub Nodes : Type 0
Nodes = List (NodeId × RaftNode)

unfoldable pub get : Nodes → NodeId → Option RaftNode
get [] id = none
get ((k, n) ∷ rest) id = if k == id then some n else get rest id

-- `insert`: in the place of the key, or as a new pair.
unfoldable pub insert : Nodes → NodeId → RaftNode → Nodes
insert [] id n = (id, n) ∷ []
insert ((k, m) ∷ rest) id n = if k == id then (k, n) ∷ rest else (k, m) ∷ insert rest id n

unfoldable pub remove : Nodes → NodeId → Nodes
remove [] id = []
remove ((k, n) ∷ rest) id = if k == id then remove rest id else (k, n) ∷ remove rest id

abbrev pub keys : Nodes → List NodeId
keys nodes = map (λ (p : NodeId × RaftNode). p.0) nodes

pub record Simulator : Type 0 where
  pub seed : ℕ
  pub rng : ℕ
  pub nodes : Nodes
  pub disks : HashMap StableDisk
  pub network : SimNetwork
  pub invariants : SafetyInvariants
  pub tick_count : ℕ
  pub node_configs : List Config

-- The generator of the nodes, that of the simulator, and the choice of the heap.
pub record World : Type 0 where
  pub node_rng : Rng
  pub chance : Chance
  pub peek : Peek

unfoldable pub find_config : List Config → NodeId → Option Config
find_config [] id = none
find_config (c ∷ rest) id = if c.id == id then some c else find_config rest id

-- `Simulator::spawn_node`
unfoldable pub spawn : World → NodeId → Simulator → Option Simulator
spawn w id sim = elim (find_config sim.node_configs id) [
  | none ↦ none
  | some config ↦ elim (sim.disks id) [
    | none ↦ none
    | some disk ↦ elim (Disk.spawn_node w.node_rng config disk) [
      | none ↦ none
      | some node ↦ some (record sim { nodes = insert sim.nodes id node })
    ]
  ]
]

unfoldable pub crash_node : NodeId → Simulator → Simulator
crash_node id sim = record sim { nodes = remove sim.nodes id }

-- The disk of a node after one action.
unfoldable pub write_disk : NodeId → Action → Simulator → Option Simulator
write_disk from_id a sim = elim (sim.disks from_id) [
  | none ↦ none
  | some disk ↦ elim (persist disk a) [
    | none ↦ none
    | some written ↦ some (record sim { disks = map_insert from_id written sim.disks })
  ]
]

unfoldable pub process_action : World → NodeId → Action → Simulator → Option Simulator
process_action w from_id (Action.send msg) sim =
    let (network, rng) = Network.send w.chance msg sim.tick_count (sim.network, sim.rng) in
    some (record sim { network = network; rng = rng })
process_action w from_id (Action.append_entries es) sim =
    write_disk from_id (Action.append_entries es) sim
process_action w from_id (Action.truncate_and_append i es) sim =
    write_disk from_id (Action.truncate_and_append i es) sim
process_action w from_id (Action.persist_hard_state term voted_for) sim =
    write_disk from_id (Action.persist_hard_state term voted_for) sim
process_action w from_id (Action.apply es) sim = some sim
process_action w from_id (Action.persist_snapshot i term payload) sim =
    write_disk from_id (Action.persist_snapshot i term payload) sim

unfoldable pub process_actions : World → NodeId → List Action → Simulator → Option Simulator
process_actions w from_id [] sim = some sim
process_actions w from_id (a ∷ rest) sim = elim (process_action w from_id a sim) [
  | none ↦ none
  | some next ↦ process_actions w from_id rest next
]

-- A node has moved: it is put back, and its actions are processed.
unfoldable pub perform : World → NodeId → Outcome → Simulator → Option Simulator
perform w id (node, actions) sim =
    process_actions w id actions (record sim { nodes = insert sim.nodes id node })

-- 1. One delivery. A message to a node that is down is lost.
unfoldable pub deliver_one : World → Message → Simulator → Option Simulator
deliver_one w msg sim = elim (get sim.nodes msg.to) [
  | none ↦ some sim
  | some node ↦ elim (Step.step w.node_rng node msg) [
    | none ↦ none
    | some o ↦ perform w msg.to o sim
  ]
]

unfoldable pub deliver_all : World → List Message → Simulator → Option Simulator
deliver_all w [] sim = some sim
deliver_all w (msg ∷ rest) sim = elim (deliver_one w msg sim) [
  | none ↦ none
  | some next ↦ deliver_all w rest next
]

-- 2. One tick of a node.
unfoldable pub tick_one : World → NodeId → Simulator → Option Simulator
tick_one w id sim = elim (get sim.nodes id) [
  | none ↦ some sim
  | some node ↦ perform w id (Step.tick w.node_rng node) sim
]

unfoldable pub tick_all : World → List NodeId → Simulator → Option Simulator
tick_all w [] sim = some sim
tick_all w (id ∷ rest) sim = elim (tick_one w id sim) [
  | none ↦ none
  | some next ↦ tick_all w rest next
]

-- `b"snapshot-data-compaction"`
abbrev pub snapshot_payload : Bytes
snapshot_payload =
    b's' ∷ b'n' ∷ b'a' ∷ b'p' ∷ b's' ∷ b'h' ∷ b'o' ∷ b't' ∷ b'-' ∷ b'd' ∷ b'a' ∷ b't' ∷ b'a' ∷ b'-'
    ∷ b'c' ∷ b'o' ∷ b'm' ∷ b'p' ∷ b'a' ∷ b'c' ∷ b't' ∷ b'i' ∷ b'o' ∷ b'n' ∷ []

-- 3. The compaction of a node whose log is long.
unfoldable pub compact_one : World → NodeId → Simulator → Option Simulator
compact_one w id sim = elim (get sim.nodes id) [
  | none ↦ some sim
  | some node ↦
      if ltb 15 (len node.log)
      then perform w id
          (compact_logs node node.commit_index
            (unwrap_or (term_at node.log node.commit_index) zero_term) snapshot_payload)
          sim
      else some sim
]

unfoldable pub compact_all : World → List NodeId → Simulator → Option Simulator
compact_all w [] sim = some sim
compact_all w (id ∷ rest) sim = elim (compact_one w id sim) [
  | none ↦ none
  | some next ↦ compact_all w rest next
]

-- The moves of the nodes in `Simulator::step`.
unfoldable pub move_nodes : World → Simulator → Option Simulator
move_nodes w sim =
    let now = add64 sim.tick_count 1 in
    let due = drain_due w.peek now sim.network in
    elim (deliver_all w due.0 (record sim { tick_count = now; network = due.1 })) [
      | none ↦ none
      | some delivered ↦ elim (tick_all w (keys delivered.nodes) delivered) [
        | none ↦ none
        | some ticked ↦ compact_all w (keys ticked.nodes) ticked
      ]
    ]

-- 4. The checks, whose record is kept, also as a violation leaves it.
unfoldable pub checked : Simulator → Verdict → Option (Simulator × Bool)
checked sim (Verdict.ok invariants) = some (record sim { invariants = invariants }, true)
checked sim (Verdict.violation invariants) = some (record sim { invariants = invariants }, false)
checked sim Verdict.panic = none

-- `Simulator::step`, with whether it returns `Ok`.
unfoldable pub step : World → Simulator → Option (Simulator × Bool)
step w sim = elim (move_nodes w sim) [
  | none ↦ none
  | some moved ↦
      checked moved
        (verify_safety (map (λ (p : NodeId × RaftNode). p.1) moved.nodes) moved.invariants)
]

-- The first leader among the nodes.
unfoldable pub find_leader : Nodes → Option NodeId
find_leader [] = none
find_leader ((id, n) ∷ rest) = if is_leader n.role then some id else find_leader rest

unfoldable pub propose_at : World → NodeId → Bytes → Simulator → Option (Simulator × Bool)
propose_at w leader_id client_cmd sim = elim (get sim.nodes leader_id) [
  | none ↦ some (sim, false)
  | some node ↦ elim (perform w leader_id (Step.propose node client_cmd) sim) [
    | none ↦ none
    | some next ↦ some (next, true)
  ]
]

-- `Simulator::propose_command`
unfoldable pub propose_command : World → Bytes → Simulator → Option (Simulator × Bool)
propose_command w client_cmd sim = elim (find_leader sim.nodes) [
  | none ↦ some (sim, false)
  | some leader_id ↦ propose_at w leader_id client_cmd sim
]

-- `Simulator::network_mut`, by what the caller does to the network.
unfoldable pub network_mut : (SimNetwork → SimNetwork) → Simulator → Simulator
network_mut f sim = record sim { network = f sim.network }
