-- ===== src/Server/Codec.antt =====
-- raft-server/src/codec.rs, and the same two functions of raft-client/src/main.rs: messages in frames
-- with a big-endian length. bincode is a parameter. A stream is non-blocking: `room` is what the
-- system still takes, `incoming` what has arrived and has not been read.
use raft_rupee.Base.{
  ℕ, ◌-◌, ◌%◌, ◌^◌, ◌≡◌, Bool, [], ◌++◌, Option, none, some, length, take, drop, leb, if◌then◌else◌,
}
use raft_rupee.Message.{Bytes, Message}
use raft_rupee.Server.Bytes.{be_bytes, from_be_bytes}
use raft_rupee.Server.Os.{invalid_data, would_block, unexpected_eof, ok, err, Op, ◌>>=◌, ◌>>◌}

-- `bincode::serialize` and `bincode::deserialize`
pub record Wire : Type 0 where
  pub serialize : Message → Option Bytes
  pub deserialize : Bytes → Option Message

-- What is serialized is deserialized to the same message.
pub record IsWire (w : Wire) : Type 0 where
  pub deserialize-serialize :
      (m : Message) (bs : Bytes) → w.serialize m ≡ some bs → w.deserialize bs ≡ some m

pub record TcpStream : Type 0 where
  pub incoming : Bytes
  pub outgoing : Bytes
  pub room : ℕ
  -- The other side has closed the connection.
  pub closed : Bool

-- `read_exact`: reads until it has `n` bytes; what it has read before an error is lost.
unfoldable pub read_exact : ℕ → Op TcpStream Bytes
read_exact n s =
    if leb n (length s.incoming)
    then (ok (take n s.incoming), record s { incoming = drop n s.incoming })
    else (err (if s.closed then unexpected_eof else would_block), record s { incoming = [] })

-- `write_all`: writes until it has written every byte, or the system takes no more.
unfoldable pub write_all : Bytes → Op TcpStream (Unit {0})
write_all bs s =
    if leb (length bs) s.room
    then (ok tt, record s { outgoing = s.outgoing ++ bs; room = s.room - length bs })
    else (err would_block, record s { outgoing = s.outgoing ++ take s.room bs; room = 0 })

-- `map_err` to `InvalidData`
unfoldable pub or_invalid : {A : Type 0} → Option A → Op TcpStream A
or_invalid none s = (err invalid_data, s)
or_invalid (some a) s = (ok a, s)

-- A flush of a TCP stream does nothing.
unfoldable pub send_framed_msg : Wire → Message → Op TcpStream (Unit {0})
send_framed_msg w msg = do
  payload ← or_invalid (w.serialize msg)
  write_all (be_bytes 4 (length payload % 2 ^ 32))
  write_all payload

unfoldable pub recv_framed_msg : Wire → Op TcpStream Message
recv_framed_msg w = do
  len_bytes ← read_exact 4
  payload ← read_exact (from_be_bytes len_bytes)
  or_invalid (w.deserialize payload)
