-- ===== src/Examples/Alone.antt =====
-- The theorems on the election timer and on a cluster of one node at a concrete node of
-- raft-core/src/node.rs.
use raft_rupee.Base.{◌+◌, ◌≡◌, refl, [], ◌∷◌, some, arith, ltb, if◌then◌else◌}
use raft_rupee.Log.{base_entry, entry_at, last_index}
use raft_rupee.Node.State.{RaftNode, Role, done}
use raft_rupee.Node.Election.{start_pre_vote}
use raft_rupee.Node.Step.{propose}
use raft_rupee.Liveness.Timer.{ticks, ticks_lem}
use raft_rupee.Liveness.Alone.{proposal, propose_alone}
use raft_rupee.Liveness.OneNode.{ticks-propose_alone}
use raft_rupee.Progress.Sound.{IsSound}
use raft_rupee.Examples.Setup.{program, low_rng, fresh_node}

-- A node without peers, whose timeout is 20 ticks.
abbrev alone : RaftNode
alone = record (fresh_node 1) { peers = []; election_timeout = 20 }

ticks_lem_example : ticks low_rng 20 alone ≡ (
    if ltb (0 + 20) 20
    then done (record alone { election_elapsed = 0 + 20 })
    else start_pre_vote low_rng (record alone { election_elapsed = 0 }))
ticks_lem_example = ticks_lem low_rng 20 alone refl (omega arith) (omega arith) (omega arith)

alone-IsSound : IsSound alone
alone-IsSound = record {
  log = record { contiguous = tt; fits = omega arith };
  applied = omega arith;
  fits = omega arith;
}

ticks-propose_alone_example :
    let o = (propose (ticks low_rng 20 alone).0 (7 ∷ [])).0 in
    (o.role ≡ Role.leader)
    × (o.current_term ≡ 0 + 1)
    × (o.commit_index ≡ last_index alone.log + 2)
    × (entry_at o.log (last_index alone.log + 2)
        ≡ some (record { index = last_index alone.log + 2; term = 0 + 1; command = 7 ∷ [] }))
unfolding program
ticks-propose_alone_example =
    ticks-propose_alone low_rng 20 alone (7 ∷ []) refl refl (omega arith) (omega arith)
      (omega arith) alone-IsSound (omega arith) (omega arith) (omega arith)

abbrev ruler : RaftNode
ruler = record alone {
  role = Role.leader;
  current_term = 1;
  log = record { sentinel = base_entry 0 0; rest = base_entry 1 1 ∷ [] };
}

ruler-IsSound : IsSound ruler
ruler-IsSound = record {
  log = record { contiguous = (refl, tt); fits = omega arith };
  applied = omega arith;
  fits = omega arith;
}

propose_alone_example :
    ((propose ruler (7 ∷ [])).0.commit_index ≡ 1 + 1)
    × (entry_at (propose ruler (7 ∷ [])).0.log (1 + 1) ≡ some (proposal ruler (7 ∷ [])))
unfolding program
propose_alone_example =
    propose_alone ruler (7 ∷ []) refl refl ruler-IsSound (omega arith) (omega arith)
