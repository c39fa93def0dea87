-- ===== src/Election/Kept.antt =====
-- The handlers of raft-core/src/node.rs that leave the role and the counted votes alone.
use raft_rupee.Base.{
  ◌≡◌, refl, ◌∙◌, inl, inr, List, [], ◌∷◌, Option, none, some, Bool, arith, Bool-cases, ltb,
  if_cases, map-eq-some, subst, not, ◌||◌, ◌==◌,
}
use raft_rupee.Types.{Term, NodeId, LogIndex}
use raft_rupee.Message.{Message, LogEntry, Bytes}
use raft_rupee.Node.State.{RaftNode, Outcome, ◌▷◌, done, is_leader}
use raft_rupee.Node.Commit.{
  apply_entries, apply_committed_entries, commit_to, maybe_advance_commit_index,
}
use raft_rupee.Node.Election.{is_alone, handle_request_vote}
use raft_rupee.Node.Entries.{
  store_entries, follow_commit, check_previous, handle_append_entries_response,
}
use raft_rupee.Node.Snapshot.{take_snapshot, handle_install_snapshot_response, compact_logs}
use raft_rupee.Node.Step.{add_entry, propose, handle_client_request}

-- What the count depends on.
pub record Keeps (n : RaftNode) (o : Outcome) : Type 0 where
  pub role : o.0.role ≡ n.role
  pub term : o.0.current_term ≡ n.current_term
  pub votes : o.0.votes_received ≡ n.votes_received
  pub peers : o.0.peers ≡ n.peers

▷-Keeps :
    {n : RaftNode} (o : Outcome) (f : RaftNode → Outcome)
    → Keeps n o
    → Keeps o.0 (f o.0)
    → Keeps n (o ▷ f)
unfolding ◌▷◌
▷-Keeps o f a b = record {
  role = b.role ∙ a.role;
  term = b.term ∙ a.term;
  votes = b.votes ∙ a.votes;
  peers = b.peers ∙ a.peers;
}

Keeps-of_same :
    (m n : RaftNode) {o : Outcome}
    → (m.role ≡ n.role)
      × (m.current_term ≡ n.current_term)
      × (m.votes_received ≡ n.votes_received)
      × (m.peers ≡ n.peers)
    → Keeps m o
    → Keeps n o
Keeps-of_same m n e k = record {
  role = k.role ∙ e.0;
  term = k.term ∙ e.1;
  votes = k.votes ∙ e.2;
  peers = k.peers ∙ e.3;
}

pub done-Keeps : (n : RaftNode) → Keeps n (done n)
done-Keeps n = ground arith

apply_entries-Keeps : (n : RaftNode) (es : List LogEntry) → Keeps n (apply_entries n es)
unfolding apply_entries
apply_entries-Keeps n [] = ground arith
apply_entries-Keeps n (e ∷ es) = ground arith

apply_committed_entries-Keeps : (n : RaftNode) → Keeps n (apply_committed_entries n)
unfolding apply_committed_entries
apply_committed_entries-Keeps n =
    if_cases (Keeps n) (ltb n.last_applied n.commit_index) _ _ (λ _. apply_entries-Keeps n _)
      (λ _. ground arith)

commit_to-Keeps : (n : RaftNode) (i : LogIndex) → Keeps n (commit_to n i)
unfolding commit_to
commit_to-Keeps n i = ground (arith, apply_committed_entries-Keeps (record n { commit_index = i }))

maybe_advance_commit_index-Keeps : (n : RaftNode) → Keeps n (maybe_advance_commit_index n)
unfolding maybe_advance_commit_index
maybe_advance_commit_index-Keeps n = commit_to-Keeps n _

add_entry-Keeps : (n : RaftNode) (c : Bytes) → Keeps n (add_entry n c)
unfolding add_entry
add_entry-Keeps n c = record { role = refl; term = refl; votes = refl; peers = refl }

pub propose-Keeps : (n : RaftNode) (c : Bytes) → Keeps n (propose n c)
unfolding propose
propose-Keeps n c =
    let m = (add_entry n c).0 in
    if_cases (Keeps n) (is_leader n.role) _ _
      (λ _. ▷-Keeps (add_entry n c) _ (add_entry-Keeps n c) (
        if_cases (Keeps m) (is_alone m) _ _ (λ _. maybe_advance_commit_index-Keeps m)
          (λ _. done-Keeps m)))
      (λ _. done-Keeps n)

pub handle_client_request-Keeps :
    (n : RaftNode) (m : Message) (c : Bytes) → Keeps n (handle_client_request n m c)
unfolding handle_client_request
handle_client_request-Keeps n m c =
    if_cases (Keeps n) (is_leader n.role) _ _
      (λ _. ▷-Keeps (propose n c) _ (propose-Keeps n c) (ground arith)) (λ _. ground arith)

store_entries-Keeps :
    (n : RaftNode) (es : List LogEntry) {o : Outcome} → store_entries n es ≡ some o → Keeps n o
unfolding store_entries
store_entries-Keeps n [] h = ground arith
store_entries-Keeps n (e ∷ es) h = ground arith

follow_commit-Keeps : (i : LogIndex) (n : RaftNode) → Keeps n (follow_commit i n)
unfolding follow_commit
follow_commit-Keeps i n =
    if_cases (Keeps n) (ltb n.commit_index i) _ _ (λ _. commit_to-Keeps n _) (λ _. ground arith)

pub check_previous-Keeps :
    (n : RaftNode) (from : NodeId) (i : LogIndex) (t : Term) (es : List LogEntry) (c : LogIndex)
    (local : Option Term) {o : Outcome}
    → check_previous n from i t es c local ≡ some o
    → Keeps n o
unfolding check_previous
check_previous-Keeps n from i t es c none h = ground arith
check_previous-Keeps n from i t es c (some u) h = elim (Bool-cases (u == t)) [
  | inl e ↦
      let (p, q, r) = map-eq-some _ (store_entries n es) (rw e at h) in
      subst (Keeps n) r (
        ▷-Keeps (p ▷ follow_commit c) _
          (▷-Keeps p _ (store_entries-Keeps n es q) (follow_commit-Keeps c p.0)) (ground arith))
  | inr e ↦ ground arith
]

pub handle_append_entries_response-Keeps :
    (n : RaftNode) (from : NodeId) (t : Term) (s : Bool) (ct : Option Term) (ci : Option LogIndex)
    → Keeps n (handle_append_entries_response n from t s ct ci)
unfolding handle_append_entries_response
handle_append_entries_response-Keeps n from t s ct ci =
    if_cases (Keeps n) (not (is_leader n.role) || not (t == n.current_term)) _ _ (λ _. done-Keeps n)
      (λ _.
        if_cases (Keeps n) s _ _
          (λ _. Keeps-of_same _ n (refl, refl, refl, refl) (maybe_advance_commit_index-Keeps _))
          (λ _. record { role = refl; term = refl; votes = refl; peers = refl }))

pub handle_install_snapshot_response-Keeps :
    (n : RaftNode) (from : NodeId) (t : Term) → Keeps n (handle_install_snapshot_response n from t)
unfolding handle_install_snapshot_response
handle_install_snapshot_response-Keeps n from t =
    if_cases (Keeps n) (not (is_leader n.role) || not (t == n.current_term)) _ _ (λ _. done-Keeps n)
      (λ _. Keeps-of_same _ n (refl, refl, refl, refl) (maybe_advance_commit_index-Keeps _))

pub take_snapshot-Keeps :
    (from : NodeId) (i : LogIndex) (t : Term) (b : Bytes) (complete : Bool) (n : RaftNode)
    → Keeps n (take_snapshot from i t b complete n)
unfolding take_snapshot
take_snapshot-Keeps from i t b complete n = ground arith

pub compact_logs-Keeps :
    (n : RaftNode) (i : LogIndex) (t : Term) (b : Bytes) → Keeps n (compact_logs n i t b)
unfolding compact_logs
compact_logs-Keeps n i t b = ground arith

pub handle_request_vote-Keeps :
    (n : RaftNode) (from : NodeId) (i : LogIndex) (t : Term)
    → Keeps n (handle_request_vote n from i t)
unfolding handle_request_vote
handle_request_vote-Keeps n from i t = ground arith
