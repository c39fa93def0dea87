-- ===== src/Examples/Replicas.antt =====
-- A run in which the leader of raft-core/src/node.rs replicates its first entry to one of the two
-- others, and the theorem on the logs at it.
use raft_rupee.Base.{◌+◌, ◌≡◌, refl, [], ◌∷◌, arith}
use raft_rupee.Log.{entry_at, term_at}
use raft_rupee.Cluster.Matching.{log_matching}
use raft_rupee.Examples.Setup.{program, low_rng, members, Run, run, clock, mail}

abbrev replicated : Run
replicated =
    run (clock 1 ∷ clock 1 ∷ mail 2 1 0 ∷ mail 1 2 0 ∷ mail 2 1 2 ∷ mail 1 2 1 ∷ mail 2 1 4 ∷ [])

log_matching_example :
    (term_at (replicated.last.node 1).log 0 ≡ term_at (replicated.last.node 2).log 0)
    × (entry_at (replicated.last.node 1).log (0 + 1)
        ≡ entry_at (replicated.last.node 2).log (0 + 1))
unfolding run program
log_matching_example =
    log_matching low_rng members replicated.last 1 2 0 1 1 replicated.reach
      (
        (
          (((((tt, omega arith), omega arith), omega arith), omega arith), omega arith),
          omega arith,
        ),
        omega arith,
      )
      (((((((tt, tt), tt), tt), tt), tt), tt), tt) refl refl refl refl (omega arith) (omega arith)
      (omega arith)
