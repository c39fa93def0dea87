-- ===== src/Cluster/System.antt =====
-- A cluster of the nodes of raft-core/src/node.rs over a network that may lose, repeat, delay and
-- reorder messages: what was ever sent may be delivered at any time, any number of times.
use raft_rupee.Base.{
  ◌+◌, ◌≡◌, ◌⊎◌, List, [], ◌∷◌, ◌++◌, none, some, true, length, contains, ◌==◌, if◌then◌else◌,
}
use raft_rupee.Types.{Term, LogIndex, NodeId, zero_term}
use raft_rupee.Message.{Bytes, Message}
use raft_rupee.Log.{RaftLog}
use raft_rupee.Node.State.{Config, RaftNode, Rng, Action, Outcome, new, restore}
use raft_rupee.Node.Snapshot.{compact_logs}
use raft_rupee.Node.Step.{is_client_msg}
use raft_rupee.Node.Step
use raft_rupee.Election.Evidence.{stored}
use raft_rupee.Election.Voting.{HasRoom}

-- `sent i` is every action that node `i` has emitted, in order.
pub record Cluster : Type 0 where
  pub node : NodeId → RaftNode
  pub sent : NodeId → List Action

abbrev pub update {ℓ} : {A : Type ℓ} → (NodeId → A) → NodeId → A → NodeId → A
update f i a j = if i == j then a else f j

-- The message is among the actions.
abbrev pub Sent : Message → List Action → Type 0
Sent m [] = ⊥
Sent m (a ∷ rest) = (a ≡ Action.send m) ⊎ Sent m rest

-- The cluster after node `i` has moved with an outcome.
abbrev pub after : Cluster → NodeId → Outcome → Cluster
after c i o = record { node = update c.node i o.0; sent = update c.sent i (c.sent i ++ o.1) }

module _ (r : Rng) (members : List NodeId) where
  -- One node moves: by its clock, by a message of a member or of a client, by a proposal or a
  -- compaction, or by a restart from the hard state that it has stored, with any log. `HasRoom`
  -- leaves out runs that use up the terms of a u64.
  pub data Move (c : Cluster) : Cluster → Type 0 where
    tick :
        (i : NodeId)
        → contains members i ≡ true
        → HasRoom (c.node i)
        → Move c (after c i (Step.tick r (c.node i)))
    deliver :
        (i j : NodeId) (msg : Message) {o : Outcome}
        → contains members i ≡ true
        → contains members j ≡ true
        → Sent msg (c.sent j)
        → msg.to ≡ i
        → HasRoom (c.node i)
        → Step.step r (c.node i) msg ≡ some o
        → Move c (after c i o)
    request :
        (i : NodeId) (msg : Message) {o : Outcome}
        → contains members i ≡ true
        → is_client_msg msg.kind ≡ true
        → HasRoom (c.node i)
        → Step.step r (c.node i) msg ≡ some o
        → Move c (after c i o)
    propose :
        (i : NodeId) (command : Bytes)
        → contains members i ≡ true
        → Move c (after c i (Step.propose (c.node i) command))
    compact :
        (i : NodeId) (index : LogIndex) (term : Term) (payload : Bytes)
        → contains members i ≡ true
        → Move c (after c i (compact_logs (c.node i) index term payload))
    restart :
        (i : NodeId) (cfg : Config) (log : RaftLog) (commit applied : LogIndex) {n : RaftNode}
        → contains members i ≡ true
        → cfg.id ≡ i
        → cfg.peers ≡ (c.node i).peers
        → restore r cfg
            (stored (zero_term, none) (c.sent i)).0
            (stored (zero_term, none) (c.sent i)).1
            log
            commit
            applied
          ≡ some n
        → Move c (record c { node = update c.node i n })

  -- Every member starts new and silent, and counts the others as its peers.
  pub record Starts (c : Cluster) : Type 0 where
    pub fresh :
        (i : NodeId)
        → contains members i ≡ true
        → (cfg : Config) × (new r cfg ≡ some (c.node i))
          × (cfg.id ≡ i)
          × (length cfg.peers + 1 ≡ length members)
    pub silent : (i : NodeId) → c.sent i ≡ []

  pub data Reach : Cluster → Type 0 where
    start : {c : Cluster} → Starts c → Reach c
    later : {c d : Cluster} → Reach c → Move c d → Reach d

  -- Any number of moves from one cluster to another.
  pub data Moves (c : Cluster) : Cluster → Type 0 where
    here : Moves c c
    next : {d e : Cluster} → Moves c d → Move d e → Moves c e
