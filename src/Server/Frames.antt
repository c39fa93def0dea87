-- ===== src/Server/Frames.antt =====
-- raft-server/src/codec.rs: the messages that one side sends and the other receives.
use mathlib.Core.List.{reverse, reverse-reverse, reverse-cons}
use raft_rupee.Base.{
  ℕ, ◌+◌, ◌-◌, ◌%◌, ◌^◌, ◌≤◌, ◌<◌, ◌≡◌, refl, ap, ◌∙◌, true, List, [], ◌∷◌, ◌++◌, some, arith,
  length, drop, leb, le→leb, length-append, append_assoc, take-append, drop-append,
}
use raft_rupee.Message.{Bytes, Message}
use raft_rupee.Server.Bytes.{le_bytes, be_bytes, from_be_bytes, length-le_bytes, read_u32}
use raft_rupee.Server.Os.{ok}
use raft_rupee.Server.Codec.{
  Wire, IsWire, TcpStream, read_exact, write_all, or_invalid, send_framed_msg, recv_framed_msg,
}

length-reverse : (bs : Bytes) → length (reverse bs) ≡ length bs
length-reverse [] = refl
length-reverse (b ∷ bs) =
    ap length (reverse-cons b bs)
    ∙ omega (arith, length-append {0} (reverse bs) (b ∷ []), length-reverse bs)

pub length-be_bytes : (w v : ℕ) → length (be_bytes w v) ≡ w
unfolding be_bytes
length-be_bytes w v = length-reverse (le_bytes w v) ∙ length-le_bytes w v

pub from_be_bytes-be_bytes : (v : ℕ) → v < 2 ^ 32 → from_be_bytes (be_bytes 4 v) ≡ v
unfolding be_bytes from_be_bytes
from_be_bytes-be_bytes v h = rw (reverse-reverse (le_bytes 4 v)) (read_u32 v h)

abbrev pub frame : Bytes → Bytes
frame payload = be_bytes 4 (length payload) ++ payload

pub length-frame : (payload : Bytes) → length (frame payload) ≡ 4 + length payload
length-frame payload = omega (
  arith,
  length-append {0} (be_bytes 4 (length payload)) payload,
  length-be_bytes 4 (length payload),
)

-- The bytes of the messages in their frames, each message of less than 4 GiB.
abbrev pub Frames : Wire → List Message → Bytes → Type 0
Frames w [] bs = bs ≡ []
Frames w (m ∷ ms) bs =
    (payload rest : Bytes) × (w.serialize m ≡ some payload)
    × (length payload < 2 ^ 32)
    × (bs ≡ frame payload ++ rest)
    × Frames w ms rest

-- One call after the other receives these messages, and leaves the stream so.
abbrev pub Received : Wire → List Message → TcpStream → TcpStream → Type 0
Received w [] t t' = t ≡ t'
Received w (m ∷ ms) t t' = (u : TcpStream) × (recv_framed_msg w t ≡ (ok m, u)) × Received w ms u t'

pub read_exact-append :
    (front rest : Bytes) (n : ℕ) (t : TcpStream)
    → length front ≡ n
    → t.incoming ≡ front ++ rest
    → read_exact n t ≡ (ok front, record t { incoming = rest })
unfolding read_exact
read_exact-append front rest n t h stands =
    let size : n ≡ length front = omega (arith, h) in
    let end : length front ≡ length front + 0 = omega arith in
    let enough : leb (length front) (length (front ++ rest)) ≡ true =
      le→leb _ _ (omega (arith, length-append {0} front rest)) in
    let dropped : drop (length front) (front ++ rest) ≡ rest =
      ap (λ k. drop k (front ++ rest)) end ∙ drop-append front rest 0 in
    rw (size, stands, enough, take-append front rest, dropped) refl

-- A frame that has arrived is received as its message, and nothing behind it is read.
recv-frame :
    (w : Wire) (m : Message) (payload rest : Bytes) (t : TcpStream)
    → IsWire w
    → w.serialize m ≡ some payload
    → length payload < 2 ^ 32
    → t.incoming ≡ frame payload ++ rest
    → recv_framed_msg w t ≡ (ok m, record t { incoming = rest })
unfolding recv_framed_msg or_invalid
recv-frame w m payload rest t is_w serialized small stands =
    let header = be_bytes 4 (length payload) in
    let in_parts : t.incoming ≡ header ++ (payload ++ rest) =
      stands ∙ append_assoc header payload rest in
    let first =
      read_exact-append header (payload ++ rest) 4 t (length-be_bytes 4 (length payload))
        in_parts in
    let u : TcpStream = record t { incoming = payload ++ rest } in
    let second = read_exact-append payload rest (length payload) u refl refl in
    rw
      (
        first,
        from_be_bytes-be_bytes (length payload) small,
        second,
        is_w.deserialize-serialize m payload serialized,
      )
      refl

pub recv-Frames :
    (w : Wire) (ms : List Message) (bs rest : Bytes) (t : TcpStream)
    → IsWire w
    → Frames w ms bs
    → t.incoming ≡ bs ++ rest
    → Received w ms t (record t { incoming = rest })
recv-Frames w [] bs rest t is_w frames stands =
    ap (λ (l : Bytes). record t { incoming = l }) (stands ∙ ap (λ b. b ++ rest) frames)
recv-Frames w (m ∷ ms) bs rest t is_w (payload, more, serialized, small, split, frames) stands =
    let in_parts : t.incoming ≡ frame payload ++ (more ++ rest) =
      stands ∙ ap (λ b. b ++ rest) split ∙ append_assoc (frame payload) more rest in
    let u : TcpStream = record t { incoming = more ++ rest } in
    (
      u,
      recv-frame w m payload (more ++ rest) t is_w serialized small in_parts,
      recv-Frames w ms more rest u is_w frames refl,
    )

write_all_lem :
    (bs : Bytes) (s : TcpStream)
    → length bs ≤ s.room
    → write_all bs s ≡ (ok tt, record s { outgoing = s.outgoing ++ bs; room = s.room - length bs })
unfolding write_all
write_all_lem bs s h = rw (le→leb (length bs) s.room h) refl

-- With room for it a message is sent in its frame.
pub send-frame :
    (w : Wire) (m : Message) (payload : Bytes) (s : TcpStream)
    → w.serialize m ≡ some payload
    → length payload < 2 ^ 32
    → length (frame payload) ≤ s.room
    → send_framed_msg w m s ≡ (
      ok tt,
      record s { outgoing = s.outgoing ++ frame payload; room = s.room - length (frame payload) },
    )
unfolding send_framed_msg or_invalid
send-frame w m payload s serialized small h =
    let header = be_bytes 4 (length payload) in
    let whole : length payload % 2 ^ 32 ≡ length payload = omega arith in
    let header_4 = length-be_bytes 4 (length payload) in
    let size = length-frame payload in
    let u : TcpStream = record s {
      outgoing = s.outgoing ++ header;
      room = s.room - length header;
    } in
    let left : s.room - length header - length payload ≡ s.room - length (frame payload) =
      omega (arith, header_4, size) in
    rw
      (
        serialized,
        whole,
        write_all_lem header s (omega (arith, header_4, size)),
        write_all_lem payload u (omega (arith, header_4, size)),
        append_assoc s.outgoing header payload,
        left,
      )
      refl
