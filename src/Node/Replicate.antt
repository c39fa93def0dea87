-- ===== src/Node/Replicate.antt =====
-- raft-core/src/node.rs: what a leader sends to its peers.
use Prim.Native.Char.{code}
use Prim.Native.String.{String}
use raft_rupee.Base.{List, [], ◌∷◌, true, leb, if◌then◌else◌, map, unwrap_or}
use raft_rupee.Types.{NodeId, zero_term, sentinel_index, prev}
use raft_rupee.Message.{Bytes, SnapshotMeta, MessageKind}
use raft_rupee.Log.{first_index, term_at, entries_from, snapshot_meta}
use raft_rupee.Node.State.{RaftNode, Action, reply}

-- The bytes of a byte string literal.
abbrev pub bytes : String → Bytes
bytes String.[] = []
bytes (String.◌∷◌ c s) = code c ∷ bytes s

abbrev pub no_snapshot : SnapshotMeta
no_snapshot = record { last_included_index = sentinel_index; last_included_term = zero_term }

-- Behind the leader's log the peer gets the snapshot, else the entries from its next index on.
unfoldable pub replicate_to_peer : RaftNode → NodeId → Action
replicate_to_peer n peer =
    let next = unwrap_or (n.next_index peer) 1 in
    let meta = unwrap_or (snapshot_meta n.log) no_snapshot in
    if leb next (first_index n.log)
    then reply n peer (
        MessageKind.install_snapshot meta.last_included_index meta.last_included_term 0
          (bytes "simulated-compacted-snapshot") true)
    else reply n peer (
        MessageKind.append_entries (prev next) (unwrap_or (term_at n.log (prev next)) zero_term)
          (entries_from n.log next) n.commit_index)

unfoldable pub broadcast_heartbeats : RaftNode → List Action
broadcast_heartbeats n = map (replicate_to_peer n) n.peers

unfoldable pub broadcast_append_entries : RaftNode → List Action
broadcast_append_entries n = map (replicate_to_peer n) n.peers
