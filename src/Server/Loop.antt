-- ===== src/Server/Loop.antt =====
-- raft-server/src/main.rs: one turn of the main loop. What the outside decides in it is an argument:
-- a new connection, whether a tick is due, and the orders in which the maps yield their keys.
use mathlib.Core.List.{reverse}
use raft_rupee.Base.{
  ℕ, ◌+◌, ◌-◌, Bool, true, false, List, [], ◌∷◌, ◌++◌, Option, none, some, length, take, drop,
  get_elem?, map_insert, HashMap, ◌==◌, if◌then◌else◌,
}
use raft_rupee.Types.{NodeId}
use raft_rupee.Message.{Message}
use raft_rupee.Node.Step.{step, tick}
use raft_rupee.Server.Os.{
  Error, last_os_error, invalid_data, would_block, unexpected_eof, Result, ok, err, stuck, later,
}
use raft_rupee.Server.Codec.{TcpStream, recv_framed_msg}
use raft_rupee.Server.Main.{Setting, Server, perform}

pub record Turn : Type 0 where
  pub accepted : Option TcpStream
  pub tick_due : Bool
  pub address_order : List NodeId
  pub connection_order : List NodeId

-- 1. Accept incoming streams.
unfoldable pub accept : Option TcpStream → Server → Server
accept none server = server
accept (some stream) server = record server {
  client_connections = server.client_connections ++ (stream ∷ []);
}

-- 2. Drive the logical clock ticks.
unfoldable pub drive : Setting → Bool → Server → Option Server
drive s false server = some server
drive s true server = elim (perform s server none (tick s.rng server.node)) [
  | none ↦ none
  | some (next, _) ↦ some next
]

-- 3. Connect to unconnected peers.
unfoldable pub connect_peer : Setting → NodeId → Server → Server
connect_peer s peer_id server = elim (server.peer_addresses peer_id) [
  | none ↦ server
  | some addr ↦ elim (server.peer_connections peer_id) [
    | some _ ↦ server
    | none ↦ elim (s.connect addr server.disk.time) [
      | none ↦ record server { disk = later server.disk }
      | some stream ↦ record server {
        disk = later server.disk;
        peer_connections = map_insert peer_id stream server.peer_connections;
      }
    ]
  ]
]

unfoldable pub connect_peers : Setting → List NodeId → Server → Server
connect_peers s [] server = server
connect_peers s (peer_id ∷ rest) server = connect_peers s rest (connect_peer s peer_id server)

-- A stream on which nothing whole has arrived stays, also when a part of a frame has been read.
unfoldable pub is_would_block : Error → Bool
is_would_block last_os_error = false
is_would_block invalid_data = false
is_would_block would_block = true
is_would_block unexpected_eof = false

unfoldable pub map_remove : {V : Type 0} → ℕ → HashMap V → HashMap V
map_remove k m j = if k == j then none else m j

-- 4. Poll incoming messages from connected peers.
unfoldable pub from_peer : Setting → NodeId → Server → Result Message × TcpStream → Option Server
from_peer s peer_id server (ok msg, stream) =
    let conns = map_insert peer_id stream server.peer_connections in
    elim (step s.rng server.node msg) [
      | none ↦ none
      | some o ↦ elim (perform s (record server { peer_connections = conns }) none o) [
        | none ↦ none
        | some (next, _) ↦ some next
      ]
    ]
from_peer s peer_id server (err e, stream) =
    if is_would_block e
    then some
        (record server { peer_connections = map_insert peer_id stream server.peer_connections })
    else some (record server { peer_connections = map_remove peer_id server.peer_connections })
from_peer s peer_id server (stuck, stream) = none

unfoldable pub poll_peer : Setting → NodeId → Server → Option Server
poll_peer s peer_id server = elim (server.peer_connections peer_id) [
  | none ↦ some server
  | some stream ↦ from_peer s peer_id server (recv_framed_msg s.wire stream)
]

unfoldable pub poll_peers : Setting → List NodeId → Server → Option Server
poll_peers s [] server = some server
poll_peers s (peer_id ∷ rest) server = elim (poll_peer s peer_id server) [
  | none ↦ none
  | some next ↦ poll_peers s rest next
]

-- 5. Poll incoming messages from client connections: the server, the stream, whether it is closed.
unfoldable pub from_client :
    Setting → Server → Result Message × TcpStream → Option (Server × TcpStream × Bool)
from_client s server (ok msg, stream) = elim (step s.rng server.node msg) [
  | none ↦ none
  | some o ↦ elim (perform s server (some stream) o) [
    | none ↦ none
    | some (next, none) ↦ some (next, stream, false)
    | some (next, some replied) ↦ some (next, replied, false)
  ]
]
from_client s server (err e, stream) =
    if is_would_block e then some (server, stream, false) else some (server, stream, true)
from_client s server (stuck, stream) = none

-- The streams from position `idx` on; the result has `closed_clients` in order.
unfoldable pub poll_clients :
    Setting → ℕ → List TcpStream → Server → Option (Server × List TcpStream × List ℕ)
poll_clients s idx [] server = some (server, [], [])
poll_clients s idx (stream ∷ rest) server =
    elim (from_client s server (recv_framed_msg s.wire stream)) [
      | none ↦ none
      | some (next, polled, closed) ↦ elim (poll_clients s (idx + 1) rest next) [
        | none ↦ none
        | some (last, streams, closed_clients) ↦
            some (last, polled ∷ streams, if closed then idx ∷ closed_clients else closed_clients)
      ]
    ]

-- `Vec::swap_remove`: the last element takes the place.
unfoldable pub swap_remove : ℕ → List TcpStream → List TcpStream
swap_remove idx xs = elim (get_elem? xs (length xs - 1)) [
  | none ↦ xs
  | some last ↦
      let front = take (length xs - 1) xs in
      if idx == length xs - 1 then front else take idx front ++ (last ∷ drop (idx + 1) front)
]

unfoldable pub remove_all : List ℕ → List TcpStream → List TcpStream
remove_all [] xs = xs
remove_all (idx ∷ rest) xs = remove_all rest (swap_remove idx xs)

unfoldable pub serve_clients : Setting → Server → Option Server
serve_clients s server = elim (poll_clients s 0 server.client_connections server) [
  | none ↦ none
  | some (next, streams, closed_clients) ↦
      some (record next { client_connections = remove_all (reverse closed_clients) streams })
]

-- The body of the `loop`.
unfoldable pub turn : Setting → Turn → Server → Option Server
turn s now server = elim (drive s now.tick_due (accept now.accepted server)) [
  | none ↦ none
  | some driven ↦
      elim (poll_peers s now.connection_order (connect_peers s now.address_order driven)) [
        | none ↦ none
        | some polled ↦ serve_clients s polled
      ]
]
