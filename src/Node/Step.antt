-- ===== src/Node/Step.antt =====
-- raft-core/src/node.rs: the entry points `tick`, `step` and `propose`.
use mathlib.Core.Option
use raft_rupee.Base.{
  [], ◌∷◌, ◌++◌, Option, none, some, Bool, true, false, not, ◌&&◌, ltb, leb, if◌then◌else◌, add64,
}
use raft_rupee.Types.{next}
use raft_rupee.Message.{Bytes, LogEntry, Message, MessageKind}
use raft_rupee.Log.{last_index, append}
use raft_rupee.Node.State.{is_leader, RaftNode, Rng, Action, Outcome, done, push, ◌▷◌, reply}
use raft_rupee.Node.Replicate.{broadcast_heartbeats, broadcast_append_entries}
use raft_rupee.Node.Commit.{maybe_advance_commit_index}
use raft_rupee.Node.Election.{
  is_alone, become_follower, start_pre_vote, handle_pre_vote, handle_pre_vote_response,
  handle_request_vote, handle_request_vote_response,
}
use raft_rupee.Node.Entries.{handle_append_entries, handle_append_entries_response}
use raft_rupee.Node.Snapshot.{handle_install_snapshot, handle_install_snapshot_response}

-- `propose` of a leader up to its last test.
unfoldable pub add_entry : RaftNode → Bytes → Outcome
add_entry n command =
    let entry : LogEntry = record {
      index = next (last_index n.log);
      term = n.current_term;
      command = command;
    } in
    let n' = record n { log = append n.log (entry ∷ []) } in
    (n', Action.append_entries (entry ∷ []) ∷ broadcast_append_entries n')

unfoldable pub propose : RaftNode → Bytes → Outcome
propose n command =
    let finish : RaftNode → Outcome =
      λ m. if is_alone m then maybe_advance_commit_index m else done m in
    if is_leader n.role then add_entry n command ▷ finish else done n

-- A leader appends the command and answers at once; any other node answers with its hint.
unfoldable pub handle_client_request : RaftNode → Message → Bytes → Outcome
handle_client_request n msg command =
    let accepted = propose n command ▷ λ m.
    push m (reply m msg.from (MessageKind.client_response true (some m.id))) in
    if is_leader n.role
    then accepted
    else push n (reply n msg.from (MessageKind.client_response false n.leader_id))

abbrev pub is_pre_vote_msg : MessageKind → Bool
is_pre_vote_msg (MessageKind.pre_vote _ _) = true
is_pre_vote_msg (MessageKind.pre_vote_response _) = true
is_pre_vote_msg _ = false

abbrev pub is_client_msg : MessageKind → Bool
is_client_msg (MessageKind.client_request _) = true
is_client_msg (MessageKind.client_response _ _) = true
is_client_msg _ = false

-- The terms of pre-votes and of client messages are not compared.
abbrev pub is_peer_msg : MessageKind → Bool
is_peer_msg kind = not (is_pre_vote_msg kind) && not (is_client_msg kind)

module _ (r : Rng) where
  unfoldable pub tick : RaftNode → Outcome
  tick n =
      let beat = record n { heartbeat_elapsed = add64 n.heartbeat_elapsed 1 } in
      let reset = record n { heartbeat_elapsed = 0 } in
      let waited = record n { election_elapsed = add64 n.election_elapsed 1 } in
      if is_leader n.role
      then (if leb beat.heartbeat_interval beat.heartbeat_elapsed
          then (reset, broadcast_heartbeats reset)
          else done beat)
      else if leb waited.election_timeout waited.election_elapsed
      then start_pre_vote r (record waited { election_elapsed = 0 })
      else done waited

  -- The `match` on the kind of a message. `none` is a panic.
  unfoldable pub dispatch : Message → MessageKind → RaftNode → Option Outcome
  dispatch msg (MessageKind.client_request command) n = some (handle_client_request n msg command)
  dispatch msg (MessageKind.client_response _ _) n = some (done n)
  dispatch msg (MessageKind.pre_vote index term) n =
      some (handle_pre_vote n msg.from msg.term index term)
  dispatch msg (MessageKind.pre_vote_response granted) n =
      some (handle_pre_vote_response r n msg.from msg.term granted)
  dispatch msg (MessageKind.request_vote index term) n =
      some (handle_request_vote n msg.from index term)
  dispatch msg (MessageKind.request_vote_response granted) n =
      some (handle_request_vote_response n msg.from msg.term granted)
  dispatch msg (MessageKind.append_entries prev_index prev_term entries leader_commit) n =
      handle_append_entries r n msg.from msg.term prev_index prev_term entries leader_commit
  dispatch msg (MessageKind.append_entries_response success term index) n =
      some (handle_append_entries_response n msg.from msg.term success term index)
  dispatch msg (MessageKind.install_snapshot index term _ payload complete) n =
      some (handle_install_snapshot r n msg.from msg.term index term payload complete)
  dispatch msg MessageKind.install_snapshot_response n =
      some (handle_install_snapshot_response n msg.from msg.term)

  -- A newer term is adopted first; a message of an older term is dropped.
  unfoldable pub meet_term : RaftNode → Message → Outcome
  meet_term n msg =
      let newer = become_follower r msg.term none n in
      if ltb n.current_term msg.term && is_peer_msg msg.kind then newer else done n

  unfoldable pub step : RaftNode → Message → Option Outcome
  step n msg =
      let o = meet_term n msg in
      let handled = Option.map {A = Outcome} (λ p. (p.0, o.1 ++ p.1)) (dispatch msg msg.kind o.0) in
      if ltb msg.term o.0.current_term && is_peer_msg msg.kind then some o else handled
