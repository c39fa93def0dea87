-- ===== src/Sim/Quiet.antt =====
-- The handlers of raft-core/src/node.rs that write nothing to the log on disk, nor to their own.
use raft_rupee.Base.{
  ◌≡◌, refl, List, [], ◌∷◌, Option, Bool, All, All-map, arith, if_cases, ltb, not, ◌||◌, ◌&&◌, ◌==◌,
  min, map,
}
use raft_rupee.Types.{LogIndex, Term, NodeId}
use raft_rupee.Message.{LogEntry}
use raft_rupee.Log.{last_index}
use raft_rupee.Node.State.{RaftNode, Rng, Outcome, Action, is_leader}
use raft_rupee.Node.Replicate.{replicate_to_peer}
use raft_rupee.Node.Commit.{
  apply_entries, apply_committed_entries, commit_to, maybe_advance_commit_index,
}
use raft_rupee.Node.Election.{
  handle_request_vote, can_vote, is_log_up_to_date, leader_lease_active, become_follower, campaign,
  canvass,
}
use raft_rupee.Node.Entries.{follow_commit, handle_append_entries_response}
use raft_rupee.Node.Snapshot.{handle_install_snapshot_response}

-- An action that writes nothing to the log on disk.
abbrev pub IsLogQuiet : Action → Type 0
IsLogQuiet (Action.append_entries _) = ⊥
IsLogQuiet (Action.truncate_and_append _ _) = ⊥
IsLogQuiet (Action.persist_snapshot _ _ _) = ⊥
IsLogQuiet _ = Unit {0}

abbrev pub IsQuiet : RaftNode → Outcome → Type 0
IsQuiet n o = (o.0.log ≡ n.log) × All IsLogQuiet o.1

pub replicate_to_peer-IsLogQuiet : (n : RaftNode) (p : NodeId) → IsLogQuiet (replicate_to_peer n p)
unfolding replicate_to_peer
replicate_to_peer-IsLogQuiet n p = ground arith

pub broadcast-IsLogQuiet : (n : RaftNode) → All IsLogQuiet (map (replicate_to_peer n) n.peers)
broadcast-IsLogQuiet n =
    All-map IsLogQuiet (replicate_to_peer n) n.peers (replicate_to_peer-IsLogQuiet n)

apply_entries-IsQuiet : (n : RaftNode) (es : List LogEntry) → IsQuiet n (apply_entries n es)
unfolding apply_entries
apply_entries-IsQuiet n [] = (refl, tt)
apply_entries-IsQuiet n (e ∷ es) = (refl, (tt, tt))

apply_committed_entries-IsQuiet : (n : RaftNode) → IsQuiet n (apply_committed_entries n)
unfolding apply_committed_entries
apply_committed_entries-IsQuiet n =
    if_cases {A = Outcome} (IsQuiet n) (ltb n.last_applied n.commit_index) _ _
      (λ _. apply_entries-IsQuiet n _) (λ _. (refl, tt))

commit_to-IsQuiet : (n : RaftNode) (i : LogIndex) → IsQuiet n (commit_to n i)
unfolding commit_to
commit_to-IsQuiet n i =
    if_cases {A = Outcome} (IsQuiet n) (ltb n.commit_index i) _ _
      (λ _. apply_committed_entries-IsQuiet (record n { commit_index = i })) (λ _. (refl, tt))

pub maybe_advance_commit_index-IsQuiet : (n : RaftNode) → IsQuiet n (maybe_advance_commit_index n)
unfolding maybe_advance_commit_index
maybe_advance_commit_index-IsQuiet n = commit_to-IsQuiet n _

pub follow_commit-IsQuiet : (i : LogIndex) (n : RaftNode) → IsQuiet n (follow_commit i n)
unfolding follow_commit
follow_commit-IsQuiet i n =
    if_cases {A = Outcome} (IsQuiet n) (ltb n.commit_index i) _ _
      (λ _. commit_to-IsQuiet n (min i (last_index n.log))) (λ _. (refl, tt))

pub handle_request_vote-IsQuiet :
    (n : RaftNode) (from : NodeId) (i : LogIndex) (t : Term)
    → IsQuiet n (handle_request_vote n from i t)
unfolding handle_request_vote
handle_request_vote-IsQuiet n from i t =
    if_cases {A = Outcome} (IsQuiet n)
      (can_vote n from && (is_log_up_to_date n i t && not (leader_lease_active n))) _ _
      (λ _. (refl, (tt, (tt, tt)))) (λ _. (refl, (tt, tt)))

pub handle_append_entries_response-IsQuiet :
    (n : RaftNode) (from : NodeId) (t : Term) (b : Bool) (u : Option Term) (i : Option LogIndex)
    → IsQuiet n (handle_append_entries_response n from t b u i)
unfolding handle_append_entries_response
handle_append_entries_response-IsQuiet n from t b u i =
    if_cases {A = Outcome} (IsQuiet n) (not (is_leader n.role) || not (t == n.current_term)) _ _
      (λ _. (refl, tt))
      (λ _.
        if_cases {A = Outcome} (IsQuiet n) b _ _ (λ _. maybe_advance_commit_index-IsQuiet _)
          (λ _. (refl, (replicate_to_peer-IsLogQuiet _ from, tt))))

pub handle_install_snapshot_response-IsQuiet :
    (n : RaftNode) (from : NodeId) (t : Term)
    → IsQuiet n (handle_install_snapshot_response n from t)
unfolding handle_install_snapshot_response
handle_install_snapshot_response-IsQuiet n from t =
    if_cases {A = Outcome} (IsQuiet n) (not (is_leader n.role) || not (t == n.current_term)) _ _
      (λ _. (refl, tt)) (λ _. maybe_advance_commit_index-IsQuiet _)

module _ (r : Rng) where
  pub become_follower-IsQuiet :
      (t : Term) (leader : Option NodeId) (n : RaftNode) → IsQuiet n (become_follower r t leader n)
  unfolding become_follower
  become_follower-IsQuiet t leader n =
      if_cases {A = Outcome} (IsQuiet n) (ltb n.current_term t) _ _ (λ _. (refl, (tt, tt)))
        (λ _. (refl, tt))

  pub campaign-IsQuiet : (n : RaftNode) → IsQuiet n (campaign r n)
  unfolding campaign
  campaign-IsQuiet n = (refl, (tt, All-map IsLogQuiet _ n.peers (λ _. tt)))

  pub canvass-IsQuiet : (n : RaftNode) → IsQuiet n (canvass r n)
  unfolding canvass
  canvass-IsQuiet n = (refl, All-map IsLogQuiet _ n.peers (λ _. tt))
