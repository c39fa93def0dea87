-- ===== src/Examples/Wires.antt =====
-- The theorem on the connections of raft-server/src/main.rs at a concrete list of actions. The
-- encoding of the examples knows one kind of message.
use raft_rupee.Base.{
  ℕ, ◌≡◌, if◌then◌else◌, refl, false, List, [], ◌∷◌, ◌++◌, Option, some, none, arith, subst,
  some_inj, empty_map, map_insert,
}
use raft_rupee.Message.{Bytes, Message, MessageKind}
use raft_rupee.Node.State.{Action}
use raft_rupee.Server.Bytes.{be_bytes, le_bytes}
use raft_rupee.Server.Os.{err, would_block, unexpected_eof}
use raft_rupee.Server.Codec.{Wire, IsWire, TcpStream, recv_framed_msg}
use raft_rupee.Server.Partial.{recv-part}
use raft_rupee.Server.Frames.{frame, Received}
use raft_rupee.Server.Main.{
  Setting, Io, sent_on, send_peer, send_action, process_action, process_actions,
}
use raft_rupee.Server.Sends.{messages_to, process_actions-Received}
use raft_rupee.Examples.Setup.{low_rng}
use raft_rupee.Examples.Files.{sums, no_files}

write : MessageKind → Message → Option Bytes
write MessageKind.install_snapshot_response m = some (m.from ∷ m.to ∷ m.term ∷ [])
write _ m = none

read : Bytes → Option Message
read (from ∷ to ∷ term ∷ []) =
    some
      (record { from = from; to = to; term = term; kind = MessageKind.install_snapshot_response })
read _ = none

abbrev wire : Wire
wire = record { serialize = λ m. write m.kind m; deserialize = read }

read-write :
    (k : MessageKind) (from to term : ℕ) (bs : Bytes)
    → write k (record { from = from; to = to; term = term; kind = k }) ≡ some bs
    → read bs ≡ some (record { from = from; to = to; term = term; kind = k })
unfolding write read
read-write MessageKind.install_snapshot_response from to term bs h =
    subst
      (λ b.
        read b
        ≡ some (record {
          from = from;
          to = to;
          term = term;
          kind = MessageKind.install_snapshot_response;
        }))
      (some_inj h) refl
read-write _ from to term bs h = cc

wire-IsWire : IsWire wire
wire-IsWire = record { deserialize-serialize = λ m bs h. read-write m.kind m.from m.to m.term bs h }

abbrev setting : Setting
setting = record { os = sums; wire = wire; rng = low_rng; connect = λ addr time. none }

abbrev pub note : ℕ → ℕ → Message
note to term = record {
  from = 1;
  to = to;
  term = term;
  kind = MessageKind.install_snapshot_response;
}

-- Two messages to node 2, with one to node 3 between them.
abbrev actions : List Action
actions =
    Action.send (note 2 5) ∷ Action.send (note 3 5) ∷ Action.apply [] ∷ Action.send (note 2 6) ∷ []

abbrev stream : TcpStream
stream = record { incoming = []; outgoing = 9 ∷ []; room = 100; closed = false }

abbrev io : Io
io = record { disk = no_files; conns = map_insert 2 stream empty_map; client_stream = none }

abbrev both : Bytes
both = frame (1 ∷ 2 ∷ 5 ∷ []) ++ (frame (1 ∷ 2 ∷ 6 ∷ []) ++ [])

abbrev other_side : TcpStream
other_side = record stream { incoming = both ++ 8 ∷ [] }

abbrev io_after : Io
io_after = record io {
  conns =
      map_insert 2 (sent_on setting (note 2 6) (sent_on setting (note 2 5) stream))
        (map_insert 2 (sent_on setting (note 2 5) stream) (map_insert 2 stream empty_map));
}

process_actions-Received_example :
    ((stream' : TcpStream) × (io_after.conns 2 ≡ some stream')
      × (stream'.outgoing ≡ (9 ∷ []) ++ both))
    × Received wire (messages_to 2 actions) other_side (record other_side { incoming = 8 ∷ [] })
unfolding process_actions process_action send_action send_peer write le_bytes be_bytes
process_actions-Received_example =
    process_actions-Received setting empty_map 2 actions io io_after stream other_side both (8 ∷ [])
      wire-IsWire (omega arith) refl refl
      (
        1 ∷ 2 ∷ 5 ∷ [],
        frame (1 ∷ 2 ∷ 6 ∷ []) ++ [],
        refl,
        omega arith,
        refl,
        (1 ∷ 2 ∷ 6 ∷ [], [], refl, omega arith, refl, refl),
      )
      (omega arith) refl

-- Of a frame with three bytes, one has arrived after the header.
abbrev half : TcpStream
half = record stream { incoming = 0 ∷ 0 ∷ 0 ∷ 3 ∷ 1 ∷ [] }

recv-part_example :
    recv_framed_msg wire half
    ≡ (err (if half.closed then unexpected_eof else would_block), record half { incoming = [] })
unfolding be_bytes le_bytes
recv-part_example = recv-part wire (1 ∷ 2 ∷ 5 ∷ []) (5 ∷ []) 2 half (omega arith) refl
