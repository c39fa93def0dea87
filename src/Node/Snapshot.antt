-- ===== src/Node/Snapshot.antt =====
-- raft-core/src/node.rs: compaction, and snapshots that a leader sends.
use raft_rupee.Base.{[], ◌∷◌, some, Bool, not, ◌||◌, ltb, leb, ◌==◌, if◌then◌else◌, map_insert}
use raft_rupee.Types.{Term, LogIndex, NodeId, next}
use raft_rupee.Message.{Bytes, MessageKind}
use raft_rupee.Log.{first_index, compact, install_snapshot}
use raft_rupee.Node.State.{is_leader, RaftNode, Rng, Action, Outcome, done, push, ◌▷◌, reply}
use raft_rupee.Node.Commit.{maybe_advance_commit_index}
use raft_rupee.Node.Election.{become_follower}

unfoldable pub compact_logs : RaftNode → LogIndex → Term → Bytes → Outcome
compact_logs n last_included_index last_included_term payload =
    if ltb n.commit_index last_included_index
    then done n
    else push (record n { log = compact n.log last_included_index last_included_term })
        (Action.persist_snapshot last_included_index last_included_term payload)

-- What a follower does with a snapshot once it follows the sender.
unfoldable pub take_snapshot : NodeId → LogIndex → Term → Bytes → Bool → RaftNode → Outcome
take_snapshot from last_included_index last_included_term payload complete n =
    let response = reply n from MessageKind.install_snapshot_response in
    let installed = record n {
      log = install_snapshot n.log (record {
        last_included_index = last_included_index;
        last_included_term = last_included_term;
      });
      commit_index = last_included_index;
      last_applied = last_included_index;
    } in
    if leb last_included_index n.commit_index
    then push n response
    else if complete
    then (
      installed,
      Action.persist_snapshot last_included_index last_included_term payload ∷ response ∷ [],
    )
    else push n response

module _ (r : Rng) where
  unfoldable pub handle_install_snapshot :
      RaftNode → NodeId → Term → LogIndex → Term → Bytes → Bool → Outcome
  handle_install_snapshot n from term last_included_index last_included_term payload complete =
      if ltb term n.current_term
      then push n (reply n from MessageKind.install_snapshot_response)
      else become_follower r term (some from) n
        ▷ take_snapshot from last_included_index last_included_term payload complete

unfoldable pub handle_install_snapshot_response : RaftNode → NodeId → Term → Outcome
handle_install_snapshot_response n from term =
    let first = first_index n.log in
    if not (is_leader n.role) || not (term == n.current_term)
    then done n
    else maybe_advance_commit_index (record n {
      match_index = map_insert from first n.match_index;
      next_index = map_insert from (next first) n.next_index;
    })
