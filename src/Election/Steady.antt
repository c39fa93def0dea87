-- ===== src/Election/Steady.antt =====
-- The handlers of raft-core/src/node.rs that leave the hard state alone.
use raft_rupee.Base.{
  ◌≡◌, refl, sym, ◌∙◌, inl, inr, List, [], ◌∷◌, Bool, arith, All, All-append, All-map, Bool-cases,
  ltb, set_insert,
}
use raft_rupee.Types.{Term, NodeId, LogIndex}
use raft_rupee.Message.{LogEntry}
use raft_rupee.Node.State.{RaftNode, Outcome, ◌▷◌, done}
use raft_rupee.Node.Replicate.{replicate_to_peer, broadcast_heartbeats}
use raft_rupee.Node.Commit.{
  apply_entries, apply_committed_entries, commit_to, maybe_advance_commit_index,
}
use raft_rupee.Node.Election.{become_leader, handle_pre_vote, handle_request_vote_response}
use raft_rupee.Election.Evidence.{IsFrom, IsPlain}

pub record IsSteady (n : RaftNode) (o : Outcome) : Type 0 where
  pub same_id : o.0.id ≡ n.id
  pub same_peers : o.0.peers ≡ n.peers
  pub same_term : o.0.current_term ≡ n.current_term
  pub same_vote : o.0.voted_for ≡ n.voted_for
  pub plain : All IsPlain o.1
  pub from_self : All (IsFrom n.id) o.1

pub done-IsSteady : (n : RaftNode) → IsSteady n (done n)
done-IsSteady n = ground arith

pub ▷-IsSteady :
    {n : RaftNode} (o : Outcome) (f : RaftNode → Outcome)
    → IsSteady n o
    → IsSteady o.0 (f o.0)
    → IsSteady n (o ▷ f)
unfolding ◌▷◌
▷-IsSteady {n} o f a b = record {
  same_id = b.same_id ∙ a.same_id;
  same_peers = b.same_peers ∙ a.same_peers;
  same_term = b.same_term ∙ a.same_term;
  same_vote = b.same_vote ∙ a.same_vote;
  plain = All-append IsPlain o.1 (f o.0).1 a.plain b.plain;
  from_self = All-append (IsFrom n.id) o.1 (f o.0).1 a.from_self (rw (sym a.same_id) b.from_self);
}

-- Only the id, the peers and the hard state of the node matter.
pub IsSteady-of_same :
    (m n : RaftNode) {o : Outcome}
    → (m.id ≡ n.id)
      × (m.peers ≡ n.peers)
      × (m.current_term ≡ n.current_term)
      × (m.voted_for ≡ n.voted_for)
    → IsSteady m o
    → IsSteady n o
IsSteady-of_same m n e s = record {
  same_id = s.same_id ∙ e.0;
  same_peers = s.same_peers ∙ e.1;
  same_term = s.same_term ∙ e.2;
  same_vote = s.same_vote ∙ e.3;
  plain = s.plain;
  from_self = rw (sym e.0) s.from_self;
}

pub replicate_to_peer-IsPlain : (n : RaftNode) (p : NodeId) → IsPlain (replicate_to_peer n p)
unfolding replicate_to_peer
replicate_to_peer-IsPlain n p = ground arith

pub replicate_to_peer-IsFrom : (n : RaftNode) (p : NodeId) → IsFrom n.id (replicate_to_peer n p)
unfolding replicate_to_peer
replicate_to_peer-IsFrom n p = ground arith

pub broadcast_heartbeats-IsSteady : (n : RaftNode) → IsSteady n (n, broadcast_heartbeats n)
unfolding broadcast_heartbeats
broadcast_heartbeats-IsSteady n = record {
  same_id = refl;
  same_peers = refl;
  same_term = refl;
  same_vote = refl;
  plain = All-map IsPlain (replicate_to_peer n) n.peers (replicate_to_peer-IsPlain n);
  from_self = All-map (IsFrom n.id) (replicate_to_peer n) n.peers (replicate_to_peer-IsFrom n);
}

apply_entries-IsSteady : (n : RaftNode) (es : List LogEntry) → IsSteady n (apply_entries n es)
unfolding apply_entries
apply_entries-IsSteady n [] = ground arith
apply_entries-IsSteady n (e ∷ es) = ground arith

apply_committed_entries-IsSteady : (n : RaftNode) → IsSteady n (apply_committed_entries n)
unfolding apply_committed_entries
apply_committed_entries-IsSteady n = elim (Bool-cases (ltb n.last_applied n.commit_index)) [
  | inl h ↦ rw h (apply_entries-IsSteady n _)
  | inr h ↦ rw h (done-IsSteady n)
]

pub commit_to-IsSteady : (n : RaftNode) (i : LogIndex) → IsSteady n (commit_to n i)
unfolding commit_to
commit_to-IsSteady n i = elim (Bool-cases (ltb n.commit_index i)) [
  | inl h ↦ rw h (
      IsSteady-of_same (record n { commit_index = i }) n (refl, refl, refl, refl)
        (apply_committed_entries-IsSteady (record n { commit_index = i })))
  | inr h ↦ rw h (done-IsSteady n)
]

pub maybe_advance_commit_index-IsSteady : (n : RaftNode) → IsSteady n (maybe_advance_commit_index n)
unfolding maybe_advance_commit_index
maybe_advance_commit_index-IsSteady n = commit_to-IsSteady n _

pub become_leader-IsSteady : (n : RaftNode) → IsSteady n (become_leader n)
unfolding become_leader
become_leader-IsSteady n =
    let b = broadcast_heartbeats-IsSteady (become_leader n).0 in
    record {
      same_id = refl;
      same_peers = refl;
      same_term = refl;
      same_vote = refl;
      plain = (tt, b.plain);
      from_self = (tt, b.from_self);
    }

pub handle_pre_vote-IsSteady :
    (n : RaftNode) (from : NodeId) (t : Term) (i : LogIndex) (u : Term)
    → IsSteady n (handle_pre_vote n from t i u)
unfolding handle_pre_vote
handle_pre_vote-IsSteady n from t i u = ground arith

pub handle_request_vote_response-IsSteady :
    (n : RaftNode) (from : NodeId) (t : Term) (granted : Bool)
    → IsSteady n (handle_request_vote_response n from t granted)
unfolding handle_request_vote_response
handle_request_vote_response-IsSteady n from t granted =
    ground (
      arith,
      become_leader-IsSteady (record n { votes_received = set_insert from n.votes_received }),
    )
