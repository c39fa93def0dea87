-- ===== src/Sim/Cluster.antt =====
-- raft-sim/src/simulator.rs: a whole simulation, from `Simulator::new` on, as a run of the cluster of
-- Cluster/System.antt.
use raft_rupee.Base.{
  ℕ, ◌+◌, ◌≤◌, ◌≡◌, refl, sym, ap, ◌∙◌, inl, List, [], none, some, true, arith, length, subst,
  contains, unwrap_or, empty_map, HashMap,
}
use raft_rupee.Types.{NodeId}
use raft_rupee.Log
use raft_rupee.Node.State.{RaftNode, Config, Role}
use raft_rupee.Election.Evidence.{stored}
use raft_rupee.Cluster.System.{Cluster, Starts}
use raft_rupee.Cluster.Moves.{new-peers}
use raft_rupee.Sim.Disk
use raft_rupee.Sim.Disk.{StableDisk}
use raft_rupee.Sim.Follows.{hard_state_on}
use raft_rupee.Sim.Network.{new_network}
use raft_rupee.Sim.Delivery.{InFlight}
use raft_rupee.Sim.Refines.{Refines, WasSent}
use raft_rupee.Sim.Steps.{Goes}
use raft_rupee.Sim.Start.{
  contains-ids_from, length-ids_from, length-other_ids, new_disks-new, find_config-new_configs,
  config_ids,
}
use raft_rupee.Sim.Started.{IsFresh, IsUp, spawn_all-IsFresh}
use raft_rupee.Sim.Simulation.{Command, run, run_in_terms, run-Goes}
use raft_rupee.Sim.Construction.{ids_from, other_ids, new_configs, new_disks, unspawned, spawn_all}
use raft_rupee.Sim.Simulator.{World, Simulator, get, find_config}
use raft_rupee.Sim.Construction

-- What stands for a node with an id that no member has.
abbrev nobody : RaftNode
nobody = record {
  id = 0;
  peers = [];
  current_term = 0;
  voted_for = none;
  log = Log.new;
  commit_index = 0;
  last_applied = 0;
  role = Role.follower;
  next_index = empty_map;
  match_index = empty_map;
  election_timeout_base = 0;
  election_timeout = 0;
  election_elapsed = 0;
  heartbeat_interval = 0;
  heartbeat_elapsed = 0;
  votes_received = [];
  pre_votes_received = [];
  rng = 0;
  leader_id = none;
}

abbrev pub cluster_of : Simulator → Cluster
cluster_of sim = record { node = λ i. unwrap_or (get sim.nodes i) nobody; sent = λ i. [] }

module _ (w : World) (seed num_nodes : ℕ) where
  abbrev ids : List NodeId
  ids = ids_from 1 num_nodes

  abbrev base : Simulator
  base = unspawned w seed num_nodes

  abbrev configs_seed : ℕ
  configs_seed = w.chance.seed_from_u64 seed

  base-IsFresh : IsFresh w base base
  unfolding unspawned get
  base-IsFresh = record { built = λ i n h. cc; configs = refl; disks = refl; network = refl }

  new-IsFresh :
      (sim : Simulator)
      → Construction.new w seed num_nodes ≡ some sim
      → IsFresh w base sim × ((i : NodeId) → contains ids i ≡ true → IsUp sim i)
  unfolding Construction.new
  new-IsFresh sim h =
      let (fresh, ups) =
        spawn_all-IsFresh w base (λ i d. unfold unspawned in new_disks-new ids i d)
          base.node_configs base sim base-IsFresh h in
      (
        fresh,
        λ i member. ups i (
            inl (
              unfold unspawned in
              ap (λ l. contains l i) (config_ids w.chance ids ids configs_seed) ∙ member)),
      )

  -- The nodes of a new simulator are those of a cluster that starts.
  new-Starts :
      (sim : Simulator)
      → Construction.new w seed num_nodes ≡ some sim
      → Starts w.node_rng ids (cluster_of sim)
  new-Starts sim h =
      let (fresh, ups) = new-IsFresh sim h in
      record {
        fresh = λ i member.
            let (n, up) = ups i member in
            let (cfg, known, made) = fresh.built i n up in
            let (_, is_id, peers) =
              find_config-new_configs w.chance ids ids configs_seed i cfg
                (unfold unspawned in known) in
            let range = sym (contains-ids_from 1 num_nodes i) ∙ member in
            let low : 1 ≤ i = ground (arith, range) in
            let high : i + 1 ≤ 1 + num_nodes = ground (arith, range) in
            (
              cfg,
              rw up made,
              is_id,
              ap (λ ps. length ps + 1) peers
                  ∙ length-other_ids 1 num_nodes i low (omega (arith, high))
                  ∙ sym (length-ids_from 1 num_nodes),
            );
        silent = λ i. refl;
      }

  -- The facts about the configuration that is found for an id.
  known-config :
      (sim : Simulator) (i : NodeId) (cfg : Config)
      → Construction.new w seed num_nodes ≡ some sim
      → find_config base.node_configs i ≡ some cfg
      → (contains ids i ≡ true) × (cfg.id ≡ i) × (cfg.peers ≡ other_ids i ids)
  unfolding unspawned
  known-config sim i cfg h known = find_config-new_configs w.chance ids ids configs_seed i cfg known

  new-Refines :
      (sim : Simulator)
      → Construction.new w seed num_nodes ≡ some sim
      → Refines ids (cluster_of sim) sim
  unfolding stored
  new-Refines sim h =
      let (fresh, ups) = new-IsFresh sim h in
      record {
        alive = λ i n up.
            let (cfg, known, made) = fresh.built i n up in
            ((known-config sim i cfg h known).0, rw up refl);
        flying =
            subst (λ net. InFlight (WasSent ids (cluster_of sim)) net.in_flight) (sym fresh.network)
              (unfold unspawned new_network in tt);
        saved = λ i d e.
            let there = ap (λ (f : HashMap StableDisk). f i) (sym fresh.disks) ∙ e in
            let is_new : d ≡ Disk.new i = unfold unspawned in new_disks-new ids i d there in
            ap hard_state_on is_new ∙ (unfold Disk.new in refl);
        configured = λ i cfg e.
            let known = ap (λ cs. find_config cs i) (sym fresh.configs) ∙ e in
            let (member, is_id, peers) = known-config sim i cfg h known in
            let (n, up) = ups i member in
            let (cfg', known', made) = fresh.built i n up in
            let (_, _, peers') = known-config sim i cfg' h known' in
            (member, is_id, rw up (peers ∙ sym peers' ∙ sym (new-peers w.node_rng cfg' n made)));
      }

-- A simulation of any number of nodes, with any seed and any choices of the generators, is a run of
-- the cluster of those nodes. However it is stepped, with nodes that crash and come back from their
-- disks, proposals, partitions and any rates: as long as no node panics, and before each delivery and
-- each tick the nodes that are alive have room for another term, the cluster that the new nodes start
-- makes moves of its own to a state in which every node that is alive is as in the simulator, every
-- message in flight has been sent by a member, and every disk has the hard state that its node has
-- stored.
pub simulation-Goes :
    (w : World) (seed num_nodes : ℕ) (cmds : List Command) (begun sim : Simulator)
    → Construction.new w seed num_nodes ≡ some begun
    → run_in_terms w cmds begun ≡ true
    → run w cmds begun ≡ some sim
    → Starts w.node_rng (ids_from 1 num_nodes) (cluster_of begun)
      × Goes w (ids_from 1 num_nodes) (cluster_of begun) sim
simulation-Goes w seed num_nodes cmds begun sim h ok ran = (
  new-Starts w seed num_nodes begun h,
  run-Goes w (ids_from 1 num_nodes) cmds (cluster_of begun) begun sim
      (new-Refines w seed num_nodes begun h) ok ran,
)
