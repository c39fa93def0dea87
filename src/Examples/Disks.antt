-- ===== src/Examples/Disks.antt =====
-- The theorems on the disk of raft-sim/src/storage.rs at a concrete disk.
use raft_rupee.Base.{◌≡◌, refl, [], ◌∷◌, some, none, arith, inr}
use raft_rupee.Log.{base_entry, entries, append, compact}
use raft_rupee.Node.State.{RaftNode, Outcome}
use raft_rupee.Node.Step.{step, tick, propose}
use raft_rupee.Sim.Disk.{
  StableDisk, append_entries, truncate_and_append, write_snapshot, spawn_node,
}
use raft_rupee.Sim.Writes.{append_entries_lem, truncate_and_append_lem, write_snapshot_lem}
use raft_rupee.Sim.Follows.{
  Follows, Carries, step-Carries, tick-Carries, propose-Carries, spawn_node_lem,
}
use raft_rupee.Examples.Setup.{program, low_rng, config, fresh_node}
use raft_rupee.Examples.Nodes.{leading, leading-IsSound, rival}

abbrev disk : StableDisk
disk = record {
  node_id = 1;
  current_term = 2;
  voted_for = none;
  log_entries = base_entry 0 0 ∷ base_entry 1 1 ∷ base_entry 2 2 ∷ [];
  snapshot = none;
}

disk-Follows : Follows disk leading
disk-Follows = record { log = refl; term = refl; vote = refl }

step-Carries_example : (o : Outcome) × (step low_rng leading rival ≡ some o) × Carries disk o
unfolding program
step-Carries_example =
    step-Carries low_rng disk leading rival disk-Follows leading-IsSound (omega arith) (omega arith)
      ((refl, tt), inr (omega arith)) tt

tick-Carries_example : Carries disk (tick low_rng leading)
unfolding program
tick-Carries_example =
    tick-Carries low_rng disk leading disk-Follows leading-IsSound (omega arith) (omega arith)

propose-Carries_example : Carries disk (propose leading (7 ∷ []))
unfolding program
propose-Carries_example =
    propose-Carries disk leading (7 ∷ []) disk-Follows leading-IsSound (omega arith)

-- The node after a restart.
abbrev again : RaftNode
again = record (fresh_node 1) { current_term = 2; log = leading.log }

spawn_node_lem_example :
    (again.log ≡ leading.log)
    × (again.current_term ≡ leading.current_term)
    × (again.voted_for ≡ leading.voted_for)
unfolding program spawn_node
spawn_node_lem_example = spawn_node_lem low_rng (config 1) disk leading again disk-Follows refl refl

append_entries_lem_example :
    append_entries disk (base_entry 3 2 ∷ [])
    ≡ some (record disk { log_entries = entries (append leading.log (base_entry 3 2 ∷ [])) })
unfolding program
append_entries_lem_example =
    append_entries_lem disk leading.log (base_entry 3 2 ∷ []) leading-IsSound.log refl (refl, tt)

truncate_and_append_lem_example :
    truncate_and_append disk 2 (base_entry 2 3 ∷ [])
    ≡ some (record disk { log_entries = base_entry 0 0 ∷ base_entry 1 1 ∷ base_entry 2 3 ∷ [] })
unfolding program
truncate_and_append_lem_example =
    truncate_and_append_lem disk leading.log
      (record { sentinel = base_entry 0 0; rest = base_entry 1 1 ∷ base_entry 2 3 ∷ [] }) 2
      (base_entry 2 3 ∷ []) leading-IsSound.log refl (omega arith) (refl, tt) refl

write_snapshot_lem_example :
    write_snapshot disk (record { last_included_index = 1; last_included_term = 1 }) (7 ∷ [])
    ≡ some (record disk {
      snapshot = some (record { last_included_index = 1; last_included_term = 1 }, 7 ∷ []);
      log_entries = entries (compact leading.log 1 1);
    })
write_snapshot_lem_example = write_snapshot_lem disk leading.log 1 1 (7 ∷ []) refl
