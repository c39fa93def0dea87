-- ===== src/Node/Election.antt =====
-- raft-core/src/node.rs: elections. A pre-vote that does not touch the term, then the real vote.
use raft_rupee.Base.{
  List, [], ◌∷◌, Option, none, some, Bool, true, false, not, ◌&&◌, ◌||◌, length, map, ltb, leb,
  ◌==◌, if◌then◌else◌, opt_eq, is_some, set_insert, map_insert, empty_map, HashMap,
}
use raft_rupee.Types.{Term, LogIndex, NodeId, sentinel_index, next, next_term}
use raft_rupee.Message.{MessageKind, LogEntry}
use raft_rupee.Log.{last_index, last_term, append}
use raft_rupee.Node.State.{
  Role, is_candidate, is_pre_candidate, RaftNode, Rng, Action, Outcome, done, push, ◌▷◌, reply,
  randomize_election_timeout,
}
use raft_rupee.Node.Replicate.{broadcast_heartbeats}
use raft_rupee.Node.Commit.{majority}

-- `self.peers.is_empty()`
abbrev pub is_alone : RaftNode → Bool
is_alone n = length n.peers == 0

unfoldable pub is_log_up_to_date : RaftNode → LogIndex → Term → Bool
is_log_up_to_date n candidate_last_index candidate_last_term =
    if candidate_last_term == last_term n.log
    then leb (last_index n.log) candidate_last_index
    else ltb (last_term n.log) candidate_last_term

-- The entries of `next_index` and `match_index` that `become_leader` makes, peer by peer.
unfoldable pub insert_all : List NodeId → LogIndex → HashMap LogIndex → HashMap LogIndex
insert_all [] i m = m
insert_all (p ∷ ps) i m = insert_all ps i (map_insert p i m)

unfoldable pub become_leader : RaftNode → Outcome
become_leader n =
    let last = last_index n.log in
    let noop : LogEntry = record { index = next last; term = n.current_term; command = [] } in
    let n' = record n {
      role = Role.leader;
      leader_id = some n.id;
      heartbeat_elapsed = 0;
      next_index = insert_all n.peers (next last) empty_map;
      match_index = insert_all n.peers sentinel_index empty_map;
      log = append n.log (noop ∷ []);
    } in
    (n', Action.append_entries (noop ∷ []) ∷ broadcast_heartbeats n')

-- A tie of `leader_id` and the time since the last contact: votes are refused meanwhile.
unfoldable pub leader_lease_active : RaftNode → Bool
leader_lease_active n = is_some n.leader_id && ltb n.election_elapsed n.election_timeout_base

unfoldable pub handle_pre_vote : RaftNode → NodeId → Term → LogIndex → Term → Outcome
handle_pre_vote n from proposed_term last_log_index last_log_term =
    let log_ok = is_log_up_to_date n last_log_index last_log_term in
    let grant = leb n.current_term proposed_term && (log_ok && not (leader_lease_active n)) in
    push n (reply n from (MessageKind.pre_vote_response grant))

unfoldable pub can_vote : RaftNode → NodeId → Bool
can_vote n from = not (is_some n.voted_for) || opt_eq n.voted_for (some from)

unfoldable pub handle_request_vote : RaftNode → NodeId → LogIndex → Term → Outcome
handle_request_vote n from last_log_index last_log_term =
    let log_ok = is_log_up_to_date n last_log_index last_log_term in
    if can_vote n from && (log_ok && not (leader_lease_active n))
    then (
      record n { voted_for = some from; election_elapsed = 0 },
      Action.persist_hard_state n.current_term (some from)
          ∷ reply n from (MessageKind.request_vote_response true)
          ∷ [],
    )
    else push n (reply n from (MessageKind.request_vote_response false))

unfoldable pub handle_request_vote_response : RaftNode → NodeId → Term → Bool → Outcome
handle_request_vote_response n from msg_term vote_granted =
    let n' = record n { votes_received = set_insert from n.votes_received } in
    if not (is_candidate n.role) || not (msg_term == n.current_term)
    then done n
    else if vote_granted
    then (if leb (majority n') (length n'.votes_received) then become_leader n' else done n')
    else done n

module _ (r : Rng) where
  unfoldable pub become_follower : Term → Option NodeId → RaftNode → Outcome
  become_follower term leader n =
      let t = randomize_election_timeout r n.election_timeout_base n.rng in
      let n' = record n {
        current_term = term;
        role = Role.follower;
        leader_id = leader;
        election_elapsed = 0;
        election_timeout = t.0;
        rng = t.1;
      } in
      if ltb n.current_term term
      then push (record n' { voted_for = none }) (Action.persist_hard_state term none)
      else done n'

  -- `start_real_election` up to its last test.
  unfoldable pub campaign : RaftNode → Outcome
  campaign n =
      let t = randomize_election_timeout r n.election_timeout_base n.rng in
      let term = next_term n.current_term in
      let n' = record n {
        current_term = term;
        role = Role.candidate;
        voted_for = some n.id;
        votes_received = n.id ∷ [];
        election_elapsed = 0;
        election_timeout = t.0;
        rng = t.1;
      } in
      let request = MessageKind.request_vote (last_index n.log) (last_term n.log) in
      (n', Action.persist_hard_state term (some n.id) ∷ map (λ peer. reply n' peer request) n.peers)

  unfoldable pub start_real_election : RaftNode → Outcome
  start_real_election n = campaign n ▷ λ m. if is_alone m then become_leader m else done m

  -- `start_pre_vote` up to its last test. The term of the requests is the one proposed.
  unfoldable pub canvass : RaftNode → Outcome
  canvass n =
      let t = randomize_election_timeout r n.election_timeout_base n.rng in
      let n' = record n {
        role = Role.pre_candidate;
        pre_votes_received = n.id ∷ [];
        election_elapsed = 0;
        election_timeout = t.0;
        rng = t.1;
      } in
      let ask : NodeId → Action = λ peer. Action.send (record {
        from = n.id;
        to = peer;
        term = next_term n.current_term;
        kind = MessageKind.pre_vote (last_index n.log) (last_term n.log);
      }) in
      (n', map ask n.peers)

  unfoldable pub start_pre_vote : RaftNode → Outcome
  start_pre_vote n = canvass n ▷ λ m. if is_alone m then start_real_election m else done m

  unfoldable pub handle_pre_vote_response : RaftNode → NodeId → Term → Bool → Outcome
  handle_pre_vote_response n from msg_term vote_granted =
      let n' = record n { pre_votes_received = set_insert from n.pre_votes_received } in
      if not (is_pre_candidate n.role) || not (msg_term == n.current_term)
      then done n
      else if vote_granted
      then (if leb (majority n') (length n'.pre_votes_received)
          then start_real_election n'
          else done n')
      else done n
