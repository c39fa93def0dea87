-- ===== src/Server/Partial.antt =====
-- raft-server/src/codec.rs: a frame of which only a part has arrived.
use raft_rupee.Base.{
  ℕ, ◌^◌, ◌≤◌, ◌<◌, ◌≡◌, refl, sym, ap, ◌∙◌, inl, inr, false, [], ◌∷◌, ◌++◌, arith, length, take,
  drop, leb, ltb, ltb→lt, ltb-false→le, if◌then◌else◌, Bool-cases, length-append, length-drop,
  take-append, take-append_of_le, take-drop,
}
use raft_rupee.Message.{Bytes}
use raft_rupee.Server.Bytes.{be_bytes}
use raft_rupee.Server.Os.{Error, would_block, unexpected_eof, err}
use raft_rupee.Server.Codec.{Wire, TcpStream, read_exact, recv_framed_msg}
use raft_rupee.Server.Frames.{
  frame, length-frame, length-be_bytes, from_be_bytes-be_bytes, read_exact-append,
}

-- The error of a read that finds too little.
abbrev too_little : TcpStream → Error
too_little t = if t.closed then unexpected_eof else would_block

read_exact-short :
    (n : ℕ) (t : TcpStream)
    → length t.incoming < n
    → read_exact n t ≡ (err (too_little t), record t { incoming = [] })
unfolding read_exact
read_exact-short n t h =
    let short : leb n (length t.incoming) ≡ false = ground arith in rw short refl

-- A call that finds only a part of a frame fails, with WouldBlock on an open connection, and loses
-- the part: what arrives of the frame later stands at the start of the stream.
pub recv-part :
    (w : Wire) (payload back : Bytes) (x : ℕ) (t : TcpStream)
    → length payload < 2 ^ 32
    → t.incoming ++ (x ∷ back) ≡ frame payload
    → recv_framed_msg w t
      ≡ (err (if t.closed then unexpected_eof else would_block), record t { incoming = [] })
unfolding recv_framed_msg
recv-part w payload back x t small part = elim (Bool-cases (ltb (length t.incoming) 4)) [
  | inl few ↦ rw (read_exact-short 4 t (ltb→lt _ _ few)) refl
  | inr enough ↦
      let header = be_bytes 4 (length payload) in
      let front = t.incoming in
      let four : 4 ≤ length front = ltb-false→le _ _ enough in
      let header_4 : 4 ≡ length header = sym (length-be_bytes 4 (length payload)) in
      let begins : take 4 front ≡ header =
        sym (take-append_of_le 4 front (x ∷ back) four)
        ∙ ap (take 4) part
        ∙ ap (λ n. take n (header ++ payload)) header_4
        ∙ take-append header payload in
      let stands : t.incoming ≡ header ++ drop 4 front =
        sym (take-drop 4 front) ∙ ap (λ h. h ++ drop 4 front) begins in
      let first = read_exact-append header (drop 4 front) 4 t (sym header_4) stands in
      let u : TcpStream = record t { incoming = drop 4 front } in
      let rest : length u.incoming < length payload = omega (
        arith,
        length-drop {0} 4 front,
        ap length part,
        length-append {0} front (x ∷ back),
        length-frame payload,
      ) in
      rw
        (
          first,
          from_be_bytes-be_bytes (length payload) small,
          read_exact-short (length payload) u rest,
        )
        refl
]
