-- ===== src/Examples/Checks.antt =====
-- The theorems on the checks of raft-sim/src/invariants.rs at concrete clusters.
use raft_rupee.Base.{◌≡◌, refl, [], ◌∷◌, map}
use raft_rupee.Cluster.System.{here}
use raft_rupee.Sim.Invariants
use raft_rupee.Node.State.{RaftNode}
use raft_rupee.Sim.Matching.{AllMatch, check_log_matching-AllMatch}
use raft_rupee.Sim.Invariants.{
  check_log_matching, Verdict, check_election_safety, verify_safety, SafetyInvariants,
}
use raft_rupee.Sim.Checks.{IsTruthful, Passes, check_election_safety_lem}
use raft_rupee.Sim.Total.{Decides, verify_safety-Decides}
use raft_rupee.Examples.Setup.{program, low_rng, members, run, fresh_node}
use raft_rupee.Examples.Elections.{elected}
use raft_rupee.Examples.Nodes.{leading, leading-IsSound}

-- Nothing is on record at first.
new-IsTruthful : IsTruthful low_rng members elected.last Invariants.new
unfolding Invariants.new
new-IsTruthful = record { led = λ t i h. cc }

check_election_safety_lem_example :
    Passes low_rng members elected.last
      (check_election_safety (map elected.last.node members) Invariants.new)
unfolding run
check_election_safety_lem_example =
    check_election_safety_lem low_rng members elected.last elected.last members Invariants.new
      elected.reach here (refl, (refl, (refl, tt))) new-IsTruthful

verify_safety-Decides_example : Decides (verify_safety (leading ∷ fresh_node 2 ∷ []) Invariants.new)
verify_safety-Decides_example = verify_safety-Decides (leading ∷ fresh_node 2 ∷ []) Invariants.new

-- Another node with the same log.
abbrev twin : RaftNode
twin = record (fresh_node 2) { log = leading.log }

twins_pass : check_log_matching (leading ∷ twin ∷ []) Invariants.new ≡ Verdict.ok Invariants.new
unfolding program check_log_matching Invariants.check_against Invariants.check_indices
    Invariants.check_index Invariants.check_commands
twins_pass = refl

check_log_matching-AllMatch_example : AllMatch (leading ∷ twin ∷ [])
check_log_matching-AllMatch_example =
    check_log_matching-AllMatch (leading ∷ twin ∷ []) Invariants.new Invariants.new
      (leading-IsSound.log, (leading-IsSound.log, tt)) twins_pass
