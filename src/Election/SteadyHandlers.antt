-- ===== src/Election/SteadyHandlers.antt =====
-- More handlers of raft-core/src/node.rs that leave the hard state alone.
use raft_rupee.Base.{
  ◌≡◌, refl, inl, inr, List, [], ◌∷◌, Option, none, some, Bool, true, arith, Bool-cases, ltb,
  if_cases, map-eq-some, subst, not, ◌||◌, ◌==◌, HashMap,
}
use raft_rupee.Types.{Term, NodeId, LogIndex}
use raft_rupee.Message.{Message, LogEntry, Bytes}
use raft_rupee.Node.State.{RaftNode, Outcome, ◌▷◌, push, is_leader}
use raft_rupee.Node.Replicate.{replicate_to_peer, broadcast_heartbeats, broadcast_append_entries}
use raft_rupee.Node.Election.{is_alone}
use raft_rupee.Node.Entries.{
  append_reply, store_entries, follow_commit, check_previous, handle_append_entries_response,
}
use raft_rupee.Node.Snapshot.{take_snapshot, handle_install_snapshot_response, compact_logs}
use raft_rupee.Node.Step.{add_entry, propose, handle_client_request}
use raft_rupee.Election.Steady.{
  IsSteady, done-IsSteady, ▷-IsSteady, IsSteady-of_same, replicate_to_peer-IsPlain,
  replicate_to_peer-IsFrom, broadcast_heartbeats-IsSteady, commit_to-IsSteady,
  maybe_advance_commit_index-IsSteady,
}

add_entry-IsSteady : (n : RaftNode) (command : Bytes) → IsSteady n (add_entry n command)
unfolding add_entry broadcast_append_entries broadcast_heartbeats
add_entry-IsSteady n command =
    let b = broadcast_heartbeats-IsSteady (add_entry n command).0 in
    record {
      same_id = refl;
      same_peers = refl;
      same_term = refl;
      same_vote = refl;
      plain = (tt, b.plain);
      from_self = (tt, b.from_self);
    }

pub propose-IsSteady : (n : RaftNode) (command : Bytes) → IsSteady n (propose n command)
unfolding propose
propose-IsSteady n command =
    let m = (add_entry n command).0 in
    if_cases (IsSteady n) (is_leader n.role) _ _
      (λ _. ▷-IsSteady (add_entry n command) _ (add_entry-IsSteady n command) (
        if_cases (IsSteady m) (is_alone m) _ _ (λ _. maybe_advance_commit_index-IsSteady m)
          (λ _. done-IsSteady m)))
      (λ _. done-IsSteady n)

pub handle_client_request-IsSteady :
    (n : RaftNode) (m : Message) (command : Bytes) → IsSteady n (handle_client_request n m command)
unfolding handle_client_request
handle_client_request-IsSteady n m command =
    if_cases (IsSteady n) (is_leader n.role) _ _
      (λ _. ▷-IsSteady (propose n command) _ (propose-IsSteady n command) (ground arith))
      (λ _. ground arith)

store_entries-IsSteady :
    (n : RaftNode) (es : List LogEntry) {o : Outcome} → store_entries n es ≡ some o → IsSteady n o
unfolding store_entries
store_entries-IsSteady n [] h = ground arith
store_entries-IsSteady n (e ∷ es) h = ground arith

follow_commit-IsSteady : (i : LogIndex) (n : RaftNode) → IsSteady n (follow_commit i n)
unfolding follow_commit
follow_commit-IsSteady i n = elim (Bool-cases (ltb n.commit_index i)) [
  | inl h ↦ rw h (commit_to-IsSteady n _)
  | inr h ↦ rw h (done-IsSteady n)
]

accepted-IsSteady :
    (n : RaftNode) (from : NodeId) (es : List LogEntry) (c : LogIndex) {p : Outcome}
    → store_entries n es ≡ some p
    → IsSteady n (p ▷ follow_commit c ▷ λ m. push m (append_reply m from true none none))
accepted-IsSteady n from es c {p} h =
    ▷-IsSteady (p ▷ follow_commit c) _
      (▷-IsSteady p _ (store_entries-IsSteady n es h) (follow_commit-IsSteady c p.0)) (ground arith)

pub check_previous-IsSteady :
    (n : RaftNode) (from : NodeId) (i : LogIndex) (t : Term) (es : List LogEntry) (c : LogIndex)
    (local : Option Term) {o : Outcome}
    → check_previous n from i t es c local ≡ some o
    → IsSteady n o
unfolding check_previous
check_previous-IsSteady n from i t es c none h = ground arith
check_previous-IsSteady n from i t es c (some u) h = elim (Bool-cases (u == t)) [
  | inl e ↦
      let (p, q, r) = map-eq-some _ (store_entries n es) (rw e at h) in
      subst (IsSteady n) r (accepted-IsSteady n from es c q)
  | inr e ↦ ground arith
]

pub handle_append_entries_response-IsSteady :
    (n : RaftNode) (from : NodeId) (t : Term) (s : Bool) (ct : Option Term) (ci : Option LogIndex)
    → IsSteady n (handle_append_entries_response n from t s ct ci)
unfolding handle_append_entries_response
handle_append_entries_response-IsSteady n from t s ct ci =
    if_cases (IsSteady n) (not (is_leader n.role) || not (t == n.current_term)) _ _
      (λ _. done-IsSteady n)
      (λ _.
        if_cases (IsSteady n) s _ _
          (λ _.
            IsSteady-of_same _ n (refl, refl, refl, refl) (maybe_advance_commit_index-IsSteady _))
          (λ _. retried _))
  where
    retried :
        (m : HashMap LogIndex)
        → let n' = record n { next_index = m } in IsSteady n (push n' (replicate_to_peer n' from))
    retried m =
        let n' = record n { next_index = m } in
        record {
          same_id = refl;
          same_peers = refl;
          same_term = refl;
          same_vote = refl;
          plain = (replicate_to_peer-IsPlain n' from, tt);
          from_self = (replicate_to_peer-IsFrom n' from, tt);
        }

pub take_snapshot-IsSteady :
    (from : NodeId) (i : LogIndex) (t : Term) (b : Bytes) (complete : Bool) (n : RaftNode)
    → IsSteady n (take_snapshot from i t b complete n)
unfolding take_snapshot
take_snapshot-IsSteady from i t b complete n = ground arith

pub handle_install_snapshot_response-IsSteady :
    (n : RaftNode) (from : NodeId) (t : Term)
    → IsSteady n (handle_install_snapshot_response n from t)
unfolding handle_install_snapshot_response
handle_install_snapshot_response-IsSteady n from t =
    if_cases (IsSteady n) (not (is_leader n.role) || not (t == n.current_term)) _ _
      (λ _. done-IsSteady n)
      (λ _. IsSteady-of_same _ n (refl, refl, refl, refl) (maybe_advance_commit_index-IsSteady _))

pub compact_logs-IsSteady :
    (n : RaftNode) (i : LogIndex) (t : Term) (b : Bytes) → IsSteady n (compact_logs n i t b)
unfolding compact_logs
compact_logs-IsSteady n i t b = ground arith
