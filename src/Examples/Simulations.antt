-- ===== src/Examples/Simulations.antt =====
-- A simulation of raft-sim/src/simulator.rs that runs, and the theorem on it.
use raft_rupee.Base.{ℕ, zero, suc, ◌+◌, refl, List, [], ◌∷◌, ◌++◌, Option, none, some, false}
use raft_rupee.Log
use raft_rupee.Node.State.{Rng}
use raft_rupee.Cluster.System.{Starts}
use raft_rupee.Sim.Disk
use raft_rupee.Sim.Invariants
use raft_rupee.Sim.Network
use raft_rupee.Sim.Network.{Chance, SimNetwork}
use raft_rupee.Sim.Simulator
use raft_rupee.Sim.Construction
use raft_rupee.Sim.Construction.{ids_from, unspawned, new_configs}
use raft_rupee.Sim.Simulator.{World, Simulator}
use raft_rupee.Sim.Steps.{Goes}
use raft_rupee.Sim.Terms
use raft_rupee.Sim.Simulation.{Command, run, obey, in_terms_for, run_in_terms}
use raft_rupee.Sim.Cluster.{cluster_of, simulation-Goes}
use raft_rupee.Examples.Setup.{program}

-- Nothing is dropped or doubled, delays are the shortest, and the queue gives its first message.
-- A node adds its seed to the lowest number of each range.
abbrev spread : Rng
spread = record { seed_from_u64 = λ s. s; gen_range = λ lo hi g. (lo + g, g) }

abbrev world : World
world = record {
  node_rng = spread;
  chance = record {
    seed_from_u64 = λ s. s;
    gen = λ g. (g, g + 1);
    gen_bool = λ rate g. (false, g);
    gen_range = λ lo hi g. (lo, g);
    rate_zero = 0;
  };
  peek = λ queue. 0;
}

unfoldable simulator : Unit {0}
unfolding program Disk.new Disk.write_hard_state Disk.write_entry Disk.write_entries
    Disk.append_entries Disk.cut Disk.truncate_and_append Disk.compact_entries Disk.write_snapshot
    Disk.persist Disk.spawn_node Network.new_network Network.is_cut Network.partition
    Network.heal_all Network.push_message Network.draw_delay Network.duplicate Network.send
    Network.remove_at Network.drain_loop Network.drain_due Simulator.get Simulator.insert
    Simulator.remove Simulator.find_config Simulator.spawn Simulator.crash_node Simulator.write_disk
    Simulator.process_action Simulator.process_actions Simulator.perform Simulator.deliver_one
    Simulator.deliver_all Simulator.tick_one Simulator.tick_all Simulator.compact_one
    Simulator.compact_all Simulator.move_nodes Simulator.checked Simulator.step
    Simulator.find_leader Simulator.propose_at Simulator.propose_command Simulator.network_mut
    Construction.ids_from Construction.other_ids Construction.new_config Construction.new_configs
    Construction.new_disks Construction.spawn_all Construction.unspawned Construction.new
    Invariants.new Invariants.check_known Invariants.check_leader Invariants.check_election_safety
    Invariants.check_commands Invariants.check_index Invariants.check_indices
    Invariants.check_against Invariants.check_log_matching Invariants.check_leader_append_only
    Invariants.check_committed Invariants.check_applied_entry Invariants.check_applied
    Invariants.check_state_machine_safety Invariants.verify_safety Log.len Terms.in_terms
    Terms.deliveries_in_terms Terms.ticks_in_terms Terms.step_in_terms in_terms_for run_in_terms run
    obey
simulator = tt

or_else : Option Simulator → Simulator → Simulator
or_else none d = d
or_else (some s) d = s

begun : Simulator
unfolding simulator or_else
begun = or_else (Construction.new world 0 2) (unspawned world 0 2)

steps : ℕ → List Command
steps zero = []
steps (suc n) = Command.step_once ∷ steps n

-- An election, a proposal, and a node that crashes and comes back.
abbrev commands : List Command
commands =
    Command.set_rates 0 0 0
    ∷ (steps 19
        ++ Command.propose (7 ∷ [])
          ∷ Command.crash 2
          ∷ Command.step_once
          ∷ Command.respawn 2
          ∷ steps 2)

over : Simulator
unfolding simulator or_else steps begun
over = or_else (run world commands begun) begun

simulation-Goes_example :
    Starts spread (ids_from 1 2) (cluster_of begun)
    × Goes world (ids_from 1 2) (cluster_of begun) over
unfolding simulator or_else steps begun over
simulation-Goes_example = simulation-Goes world 0 2 commands begun over refl refl refl
