-- ===== src/Cluster/Safety.antt =====
-- Election safety of a cluster of nodes of raft-core/src/node.rs, and what it rests on.
use raft_rupee.Base.{◌+◌, ◌/◌, ◌≤◌, ◌≡◌, refl, List, true, arith, length, contains, subst, none}
use raft_rupee.Types.{Term, NodeId, zero_term}
use raft_rupee.Node.State.{Rng, is_leader, Role}
use raft_rupee.Node.Step
use raft_rupee.Node.Snapshot.{compact_logs}
use raft_rupee.Election.Evidence.{HasVote, stored, hard_state}
use raft_rupee.Election.Quorum.{Distinct, quorums_meet}
use raft_rupee.Election.Tally.{campaigns}
use raft_rupee.Cluster.System.{
  Cluster, Move, tick, deliver, request, propose, compact, restart, Moves, here, next, Reach, later,
}
use raft_rupee.Cluster.Moves.{Reach-Invariant}
use raft_rupee.Cluster.Invariant.{Invariant, VotesFor, VotesFor-after}

leader-campaigns : (r : Role) → is_leader r ≡ true → campaigns r ≡ true
leader-campaigns Role.leader h = refl
leader-campaigns _ h = ground arith

module _ (r : Rng) (members : List NodeId) where
  Move-VotesFor :
      {c d : Cluster}
      → Move r members c d
      → (i : NodeId) (t : Term) (v : NodeId) → VotesFor members c.sent i t v
      → VotesFor members d.sent i t v
  Move-VotesFor {c} (tick i _ _) = VotesFor-after members c i (Step.tick r (c.node i))
  Move-VotesFor {c} (deliver i _ _ {o} _ _ _ _ _ _) = VotesFor-after members c i o
  Move-VotesFor {c} (request i _ {o} _ _ _ _) = VotesFor-after members c i o
  Move-VotesFor {c} (propose i command _) =
      VotesFor-after members c i (Step.propose (c.node i) command)
  Move-VotesFor {c} (compact i index t payload _) =
      VotesFor-after members c i (compact_logs (c.node i) index t payload)
  Move-VotesFor (restart _ _ _ _ _ _ _ _ _) = λ i t v h. h

  Moves-VotesFor :
      {c d : Cluster}
      → Moves r members c d
      → (i : NodeId) (t : Term) (v : NodeId) → VotesFor members c.sent i t v
      → VotesFor members d.sent i t v
  Moves-VotesFor here i t v h = h
  Moves-VotesFor (next ms m) i t v h = Move-VotesFor m i t v (Moves-VotesFor ms i t v h)

  pub Moves-Reach : {c d : Cluster} → Reach r members c → Moves r members c d → Reach r members d
  Moves-Reach reach here = reach
  Moves-Reach reach (next ms m) = later (Moves-Reach reach ms) m

  pub Moves_trans :
      {c d e : Cluster} → Moves r members c d → Moves r members d e → Moves r members c e
  Moves_trans ms here = ms
  Moves_trans ms (next ns m) = next (Moves_trans ms ns) m

  -- What makes member `i` a leader of term `t`: distinct members, a majority, voted for it.
  pub record Mandate (c : Cluster) (i : NodeId) (t : Term) : Type 0 where
    pub voters : List NodeId
    pub distinct : Distinct voters
    pub many : length members / 2 + 1 ≤ length voters
    pub cast : (v : NodeId) → contains voters v ≡ true → VotesFor members c.sent i t v

  pub leader-Mandate :
      {c : Cluster} (i : NodeId)
      → Reach r members c
      → contains members i ≡ true
      → is_leader (c.node i).role ≡ true
      → Mandate c i (c.node i).current_term
  leader-Mandate {c} i reach m l =
      let h = Reach-Invariant r members reach i m in
      record {
        voters = (c.node i).votes_received;
        distinct = h.elected.distinct;
        many = rw h.peers at (h.elected.quorum l);
        cast = λ v k. h.elected.supported v (leader-campaigns (c.node i).role l) k;
      }

  pub Mandate-Moves :
      {c d : Cluster} (i : NodeId) (t : Term) → Moves r members c d → Mandate c i t → Mandate d i t
  Mandate-Moves i t ms m = record {
    voters = m.voters;
    distinct = m.distinct;
    many = m.many;
    cast = λ v k. Moves-VotesFor ms i t v (m.cast v k);
  }

  -- Two majorities share a voter, who votes once.
  pub Mandate-eq :
      {c : Cluster} (i j : NodeId) (t : Term)
      → Invariant members c
      → Mandate c i t
      → Mandate c j t
      → i ≡ j
  Mandate-eq i j t inv a b =
      let (v, x, y) =
        quorums_meet members a.voters b.voters a.distinct b.distinct (λ w k. (a.cast w k).1)
          (λ w k. (b.cast w k).1) (omega (arith, a.many, b.many)) in
      let p = a.cast v x in (inv v p.1).unique t i j p.0 (b.cast v y).0

  -- Take a cluster of `members` that started as `RaftNode::new` makes it, whose messages may be
  -- lost, repeated, delayed or reordered, whose nodes may restart from their stored hard state, and
  -- in which no node uses up its terms. A member that leads in a reachable cluster, and one that
  -- leads then or at any later time in the same term, are the same member.
  pub election_safety :
      (c d : Cluster) (i j : NodeId)
      → Reach r members c
      → Moves r members c d
      → contains members i ≡ true
      → contains members j ≡ true
      → is_leader (c.node i).role ≡ true
      → is_leader (d.node j).role ≡ true
      → (c.node i).current_term ≡ (d.node j).current_term
      → i ≡ j
  election_safety c d i j reach ms mi mj li lj same =
      let now = Moves-Reach reach ms in
      Mandate-eq i j (d.node j).current_term (Reach-Invariant r members now)
        (Mandate-Moves i _ ms (subst (Mandate c i) same (leader-Mandate i reach mi li)))
        (leader-Mandate j now mj lj)

  -- In a cluster that new nodes have reached by ticks, by messages in any order, by proposals and
  -- compactions and by restarts from the stored hard state, no two votes for different nodes in one
  -- term are among the actions of a member, stored or granted by message.
  pub vote_once :
      (c : Cluster) (i : NodeId) (t : Term) (a b : NodeId)
      → Reach r members c
      → contains members i ≡ true
      → HasVote t a (c.sent i)
      → HasVote t b (c.sent i)
      → a ≡ b
  vote_once c i t a b reach m ha hb = (Reach-Invariant r members reach i m).unique t a b ha hb

  -- In a cluster that new nodes have reached by ticks, by messages in any order, by proposals and
  -- compactions and by restarts from the stored hard state, the hard state that a member has stored,
  -- replayed from its actions, is its current term and vote, so that a restart forgets neither.
  pub stored_state_lem :
      (c : Cluster) (i : NodeId)
      → Reach r members c
      → contains members i ≡ true
      → stored (zero_term, none) (c.sent i) ≡ hard_state (c.node i)
  stored_state_lem c i reach m = (Reach-Invariant r members reach i m).saved
