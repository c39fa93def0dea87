-- ===== src/Server/Main.antt =====
-- raft-server/src/main.rs: recovery at the start, one turn of the main loop, and `process_actions`.
-- Sockets are parameters; printing and sleeping are left out. `none` is a panic.
use raft_rupee.Base.{
  ℕ, List, [], ◌∷◌, Option, none, some, HashMap, map_insert, unwrap_or, ◌==◌, if◌then◌else◌,
}
use raft_rupee.Types.{NodeId, zero_term, sentinel_index}
use raft_rupee.Message.{Bytes, Message}
use raft_rupee.Log
use raft_rupee.Node.Replicate.{no_snapshot}
use raft_rupee.Node.State.{Action, Rng, Config, RaftNode, Outcome, restore}
use raft_rupee.Server.Os.{System, DurableDisk, Result, ok, err, stuck, M, pure, ◌>>=◌, later}
use raft_rupee.Server.Storage.{
  read_hard_state, write_hard_state, append_log_entries, truncate_and_append, replay_wal,
}
use raft_rupee.Server.Codec.{Wire, TcpStream, send_framed_msg}

-- What the server is started with, and `TcpStream::connect` by the time of the call.
pub record Setting : Type 0 where
  pub os : System
  pub wire : Wire
  pub rng : Rng
  pub connect : Bytes → ℕ → Option TcpStream

-- The configuration that `main` makes; `peers` are the keys of its address map, its own id included.
unfoldable pub server_config : NodeId → List NodeId → ℕ → Config
server_config node_id peers seed = record {
  id = node_id;
  peers = peers;
  election_timeout_ticks = 15;
  heartbeat_interval_ticks = 3;
  rng_seed = seed;
}

-- From the opened disk to the restored node.
unfoldable pub recover : Setting → Config → M (Option RaftNode)
recover s config = do
  hard_state ← read_hard_state s.os
  replayed_entries ← replay_wal s.os
  let recovered = unwrap_or hard_state (zero_term, none)
  let log = Log.restore no_snapshot replayed_entries
  pure (restore s.rng config recovered.0 recovered.1 log sentinel_index sentinel_index)

-- The variables of `main` that its loop changes, without the clock.
pub record Server : Type 0 where
  pub node : RaftNode
  pub disk : DurableDisk
  pub peer_addresses : HashMap Bytes
  pub peer_connections : HashMap TcpStream
  pub client_connections : List TcpStream

-- The node id of clients.
abbrev pub client_id : NodeId
client_id = 999

-- `process_actions` changes the disk, the connections of the peers and the client's stream.
pub record Io : Type 0 where
  pub disk : DurableDisk
  pub conns : HashMap TcpStream
  pub client_stream : Option TcpStream

-- The stream after an attempt to send, whose error is ignored.
unfoldable pub sent_on : Setting → Message → TcpStream → TcpStream
sent_on s msg stream = (send_framed_msg s.wire msg stream).1

unfoldable pub send_client : Setting → Message → Io → Io
send_client s msg io = elim io.client_stream [
  | none ↦ io
  | some c_stream ↦ record io { client_stream = some (sent_on s msg c_stream) }
]

unfoldable pub send_new : Setting → Message → Io → Option TcpStream → Io
send_new s msg io none = record io { disk = later io.disk }
send_new s msg io (some stream) = record io {
  disk = later io.disk;
  conns = map_insert msg.to (sent_on s msg stream) io.conns;
}

unfoldable pub send_peer : Setting → HashMap Bytes → Message → Io → Io
send_peer s peer_addrs msg io = elim (io.conns msg.to) [
  | some stream ↦ record io { conns = map_insert msg.to (sent_on s msg stream) io.conns }
  | none ↦ elim (peer_addrs msg.to) [
    | none ↦ io
    | some addr ↦ send_new s msg io (s.connect addr io.disk.time)
  ]
]

unfoldable pub send_action : Setting → HashMap Bytes → Message → Io → Io
send_action s peer_addrs msg io =
    if msg.to == client_id then send_client s msg io else send_peer s peer_addrs msg io

-- `unwrap` of a disk operation
unfoldable pub unwrap : Io → Result (Unit {0}) × DurableDisk → Option Io
unwrap io (ok _, disk) = some (record io { disk = disk })
unwrap io (err _, disk) = none
unwrap io (stuck, disk) = none

unfoldable pub process_action : Setting → HashMap Bytes → Action → Io → Option Io
process_action s peer_addrs (Action.send msg) io = some (send_action s peer_addrs msg io)
process_action s peer_addrs (Action.append_entries entries) io =
    unwrap io (append_log_entries s.os entries io.disk)
process_action s peer_addrs (Action.truncate_and_append from_index entries) io =
    unwrap io (truncate_and_append s.os from_index entries io.disk)
process_action s peer_addrs (Action.persist_hard_state term voted_for) io =
    unwrap io (write_hard_state s.os term voted_for io.disk)
process_action s peer_addrs (Action.apply entries) io = some io
process_action s peer_addrs (Action.persist_snapshot index term payload) io = some io

unfoldable pub process_actions : Setting → HashMap Bytes → List Action → Io → Option Io
process_actions s peer_addrs [] io = some io
process_actions s peer_addrs (a ∷ rest) io = elim (process_action s peer_addrs a io) [
  | none ↦ none
  | some next ↦ process_actions s peer_addrs rest next
]

-- The node has moved, and its actions are processed for a client or for none.
unfoldable pub perform :
    Setting → Server → Option TcpStream → Outcome → Option (Server × Option TcpStream)
perform s server client (node, actions) =
    elim (process_actions s server.peer_addresses actions
      (record { disk = server.disk; conns = server.peer_connections; client_stream = client })) [
        | none ↦ none
        | some io ↦ some (
          record server { node = node; disk = io.disk; peer_connections = io.conns },
          io.client_stream,
        )
      ]
