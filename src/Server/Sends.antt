-- ===== src/Server/Sends.antt =====
-- raft-server/src/main.rs: the messages that `process_actions` puts on the connection of a peer.
use raft_rupee.Base.{
  ◌≤◌, ◌≡◌, ◌≢◌, refl, sym, ap, ◌∙◌, inl, inr, true, List, [], ◌∷◌, ◌++◌, none, some, arith, length,
  HashMap, ◌==◌, Bool-cases, Option-cases, if◌then◌else◌, append_assoc, append-nil, length-append,
  some_inj,
}
use raft_rupee.Types.{NodeId}
use raft_rupee.Message.{Bytes, Message}
use raft_rupee.Node.State.{Action}
use raft_rupee.Server.Os.{Result}
use raft_rupee.Server.Codec.{IsWire, TcpStream}
use raft_rupee.Server.Frames.{frame, Frames, Received, recv-Frames, send-frame}
use raft_rupee.Server.Connection.{sent_by, process_action-conns}
use raft_rupee.Server.Main.{Setting, Io, client_id, sent_on, process_action, process_actions}

-- The messages among the actions that go to a node, in order.
abbrev pub messages_to : NodeId → List Action → List Message
messages_to j [] = []
messages_to j (Action.send m ∷ rest) =
    if m.to == j then m ∷ messages_to j rest else messages_to j rest
messages_to j (Action.append_entries _ ∷ rest) = messages_to j rest
messages_to j (Action.truncate_and_append _ _ ∷ rest) = messages_to j rest
messages_to j (Action.persist_hard_state _ _ ∷ rest) = messages_to j rest
messages_to j (Action.apply _ ∷ rest) = messages_to j rest
messages_to j (Action.persist_snapshot _ _ _ ∷ rest) = messages_to j rest

module _ (s : Setting) (addrs : HashMap Bytes) (j : NodeId) where
  -- The frames of an action's messages, and those of the rest.
  record Splits (a : Action) (rest : List Action) (stream : TcpStream) (bs : Bytes) : Type 0 where
    first : Bytes
    more : Bytes
    whole : bs ≡ first ++ more
    written : (sent_by s addrs j a stream).outgoing ≡ stream.outgoing ++ first
    others : Frames s.wire (messages_to j rest) more
    fits : length more ≤ (sent_by s addrs j a stream).room

  no_message :
      (a : Action) (rest : List Action) (stream : TcpStream) (bs : Bytes)
      → sent_by s addrs j a stream ≡ stream
      → Frames s.wire (messages_to j rest) bs
      → length bs ≤ stream.room
      → Splits a rest stream bs
  no_message a rest stream bs same frames fits = record {
    first = [];
    more = bs;
    whole = refl;
    written = ap (λ (t : TcpStream). t.outgoing) same ∙ sym (append-nil stream.outgoing);
    others = frames;
    fits = omega (arith, ap (λ (t : TcpStream). t.room) same);
  }

  one_message :
      (m : Message) (rest : List Action) (stream : TcpStream) (bs : Bytes)
      → (m.to == j) ≡ true
      → Frames s.wire (m ∷ messages_to j rest) bs
      → length bs ≤ stream.room
      → Splits (Action.send m) rest stream bs
  unfolding sent_by sent_on
  one_message m rest stream bs to (payload, more, serialized, small, whole, frames) fits =
      let size = ap length whole ∙ length-append {0} (frame payload) more in
      let sent = send-frame s.wire m payload stream serialized small (omega (arith, size)) in
      let after = ap (λ (r : Result (Unit {0}) × TcpStream). r.1) sent in
      record {
        first = frame payload;
        more = more;
        whole = whole;
        written = rw to (ap (λ (t : TcpStream). t.outgoing) after);
        others = frames;
        fits = rw to (omega (arith, size, ap (λ (t : TcpStream). t.room) after));
      }

  splits :
      (a : Action) (rest : List Action) (stream : TcpStream) (bs : Bytes)
      → Frames s.wire (messages_to j (a ∷ rest)) bs
      → length bs ≤ stream.room
      → Splits a rest stream bs
  unfolding sent_by
  splits (Action.send m) rest stream bs frames fits = elim (Bool-cases (m.to == j)) [
    | inl to ↦ one_message m rest stream bs to (rw to at frames) fits
    | inr to ↦ no_message (Action.send m) rest stream bs (rw to refl) (rw to at frames) fits
  ]
  splits (Action.append_entries es) rest stream bs frames fits =
      no_message _ rest stream bs refl frames fits
  splits (Action.truncate_and_append i es) rest stream bs frames fits =
      no_message _ rest stream bs refl frames fits
  splits (Action.persist_hard_state t v) rest stream bs frames fits =
      no_message _ rest stream bs refl frames fits
  splits (Action.apply es) rest stream bs frames fits = no_message _ rest stream bs refl frames fits
  splits (Action.persist_snapshot i t p) rest stream bs frames fits =
      no_message _ rest stream bs refl frames fits

  -- Over all the actions.
  sends :
      (actions : List Action) (io io' : Io) (stream : TcpStream) (bs : Bytes)
      → j ≢ client_id
      → process_actions s addrs actions io ≡ some io'
      → io.conns j ≡ some stream
      → Frames s.wire (messages_to j actions) bs
      → length bs ≤ stream.room
      → (stream' : TcpStream) × (io'.conns j ≡ some stream')
        × (stream'.outgoing ≡ stream.outgoing ++ bs)
  unfolding process_actions
  sends [] io io' stream bs peer ran open_conn frames fits = (
    stream,
    ap (λ (i : Io). i.conns j) (sym (some_inj ran)) ∙ open_conn,
    sym (ap (λ b. stream.outgoing ++ b) frames ∙ append-nil stream.outgoing),
  )
  sends (a ∷ rest) io io' stream bs peer ran open_conn frames fits =
      elim (Option-cases (process_action s addrs a io)) [
        | inl failed ↦ absurd (none-ne-some (rw (failed, process_actions) at ran))
        | inr (next, one) ↦
            let p = splits a rest stream bs frames fits in
            let on_next = process_action-conns s addrs j a io next stream peer one open_conn in
            let (stream', conn, written) =
              sends rest next io' (sent_by s addrs j a stream) p.more peer
                (rw (one, process_actions) at ran) on_next p.others p.fits in
            (
              stream',
              conn,
              written
                  ∙ ap (λ b. b ++ p.more) p.written
                  ∙ append_assoc stream.outgoing p.first p.more
                  ∙ ap (λ b. stream.outgoing ++ b) (sym p.whole),
            )
      ]
    where
      none-ne-some : {x : Io} → none ≡ some x → ⊥
      none-ne-some h = cc

-- Unless a disk operation fails, `process_actions` puts the messages that go to a connected peer on
-- its connection, framed, in the order of the actions, where the connection has room for them; and
-- the peer that receives these bytes receives these messages in order, and reads nothing behind them.
-- bincode gives back what it has serialized, and each message has less than 4 GiB.
pub process_actions-Received :
    (s : Setting) (addrs : HashMap Bytes) (j : NodeId) (actions : List Action) (io io' : Io)
    (stream t : TcpStream) (bs rest : Bytes)
    → IsWire s.wire
    → j ≢ client_id
    → process_actions s addrs actions io ≡ some io'
    → io.conns j ≡ some stream
    → Frames s.wire (messages_to j actions) bs
    → length bs ≤ stream.room
    → t.incoming ≡ bs ++ rest
    → ((stream' : TcpStream) × (io'.conns j ≡ some stream')
        × (stream'.outgoing ≡ stream.outgoing ++ bs))
      × Received s.wire (messages_to j actions) t (record t { incoming = rest })
process_actions-Received s addrs j actions io io' stream t bs rest is_w peer ran open_conn frames
      fits stands =
    (
      sends s addrs j actions io io' stream bs peer ran open_conn frames fits,
      recv-Frames s.wire (messages_to j actions) bs rest t is_w frames stands,
    )
