-- ===== src/Examples/Elections.antt =====
-- A run in which node 1 of raft-core/src/node.rs is elected by nodes 1 and 2, and the theorems on
-- elections at it.
use raft_rupee.Base.{arith, inl, inr, ℕ, ◌≡◌, refl, [], ◌∷◌, true, none}
use raft_rupee.Types.{zero_term}
use raft_rupee.Node.State.{is_leader}
use raft_rupee.Election.Evidence.{stored, hard_state}
use raft_rupee.Cluster.System.{here}
use raft_rupee.Cluster.Safety.{election_safety, vote_once, stored_state_lem}
use raft_rupee.Message.{Message, MessageKind}
use raft_rupee.Node.Step.{step}
use raft_rupee.Progress.Entries.{NoPanic}
use raft_rupee.Cluster.Panics.{no_panic}
use raft_rupee.Examples.Setup.{low_rng, members, Run, run, clock, mail}

abbrev pub elected : Run
elected = run (clock 1 ∷ clock 1 ∷ mail 2 1 0 ∷ mail 1 2 0 ∷ mail 2 1 2 ∷ mail 1 2 1 ∷ [])

node_one_leads : is_leader (elected.last.node 1).role ≡ true
unfolding run
node_one_leads = refl

election_safety_example : ◌≡◌ {A = ℕ} 1 1
unfolding run
election_safety_example =
    election_safety low_rng members elected.last elected.last 1 1 elected.reach here refl refl refl
      refl refl

vote_once_example : ◌≡◌ {A = ℕ} 1 1
unfolding run
vote_once_example =
    vote_once low_rng members elected.last 2 1 1 1 elected.reach refl (inr (inr (inl refl)))
      (inr (inr (inr (inl refl))))

stored_state_lem_example :
    stored (zero_term, none) (elected.last.sent 2) ≡ hard_state (elected.last.node 2)
unfolding run
stored_state_lem_example = stored_state_lem low_rng members elected.last 2 elected.reach refl

-- The last message of the run, the vote that makes node 1 a leader, comes to it once more.
abbrev vote : Message
vote = record { from = 2; to = 1; term = 1; kind = MessageKind.request_vote_response true }

no_panic_example : NoPanic (elected.last.node 1) (step low_rng (elected.last.node 1) vote)
unfolding run
no_panic_example =
    no_panic low_rng members elected.last 1 2 vote elected.reach
      ((((((tt, omega arith), omega arith), omega arith), omega arith), omega arith), omega arith)
      refl refl (inr (inr (inr (inl refl)))) (omega arith)
