-- ===== src/Server/Connection.antt =====
-- raft-server/src/main.rs: what each action of `process_actions` does to the connection of a peer.
use raft_rupee.Base.{
  ◌≡◌, ◌≢◌, refl, sym, ap, ◌∙◌, inl, inr, true, false, Option, none, some, arith, HashMap, ◌==◌,
  ==_iff, Bool-cases, Option-cases, if◌then◌else◌, some_inj,
}
use raft_rupee.Types.{NodeId}
use raft_rupee.Message.{Bytes, Message}
use raft_rupee.Node.State.{Action}
use raft_rupee.Server.Os.{DurableDisk, Result, ok, err, stuck}
use raft_rupee.Server.Codec.{TcpStream}
use raft_rupee.Server.Main.{
  Setting, Io, client_id, sent_on, send_client, send_new, send_peer, send_action, unwrap,
  process_action,
}

module _ (s : Setting) (addrs : HashMap Bytes) (j : NodeId) where
  unwrap-conns :
      (io next : Io) (r : Result (Unit {0}) × DurableDisk)
      → unwrap io r ≡ some next
      → next.conns ≡ io.conns
  unfolding unwrap
  unwrap-conns io next (ok _, disk) h = cc
  unwrap-conns io next (err _, disk) h = cc
  unwrap-conns io next (stuck, disk) h = cc

  -- A message to another node leaves the connection alone.
  send_new-other :
      (msg : Message) (io : Io) (o : Option TcpStream)
      → (msg.to == j) ≡ false
      → (send_new s msg io o).conns j ≡ io.conns j
  unfolding send_new
  send_new-other msg io none h = refl
  send_new-other msg io (some stream) h = rw h refl

  send_peer-other :
      (msg : Message) (io : Io)
      → (msg.to == j) ≡ false
      → (send_peer s addrs msg io).conns j ≡ io.conns j
  unfolding send_peer
  send_peer-other msg io h = elim (Option-cases (io.conns msg.to)) [
    | inr (stream, e) ↦ rw (e, send_peer, h) refl
    | inl e ↦ elim (Option-cases (addrs msg.to)) [
      | inl a ↦ rw (e, a, send_peer) refl
      | inr (addr, a) ↦ rw (e, a, send_peer) (send_new-other msg io (s.connect addr io.disk.time) h)
    ]
  ]

  send_client-conns : (msg : Message) (io : Io) → (send_client s msg io).conns ≡ io.conns
  unfolding send_client
  send_client-conns msg io = elim (Option-cases io.client_stream) [
    | inl e ↦ rw e refl
    | inr (stream, e) ↦ rw e refl
  ]

  send_action-other :
      (msg : Message) (io : Io)
      → (msg.to == j) ≡ false
      → (send_action s addrs msg io).conns j ≡ io.conns j
  unfolding send_action
  send_action-other msg io h = elim (Bool-cases (msg.to == client_id)) [
    | inl c ↦ rw c (ap (λ (f : HashMap TcpStream). f j) (send_client-conns msg io))
    | inr c ↦ rw c (send_peer-other msg io h)
  ]

  -- A message to the node is sent on its connection.
  send_peer-same :
      (msg : Message) (io : Io) (stream : TcpStream)
      → (msg.to == j) ≡ true
      → io.conns msg.to ≡ some stream
      → (send_peer s addrs msg io).conns j ≡ some (sent_on s msg stream)
  unfolding send_peer
  send_peer-same msg io stream to open_conn = rw (open_conn, send_peer, to) refl

  send_action-same :
      (msg : Message) (io : Io) (stream : TcpStream)
      → j ≢ client_id
      → (msg.to == j) ≡ true
      → io.conns j ≡ some stream
      → (send_action s addrs msg io).conns j ≡ some (sent_on s msg stream)
  unfolding send_action
  send_action-same msg io stream peer to open_conn =
      let is_j : msg.to ≡ j = (==_iff msg.to j).0 to in
      let not_client : (msg.to == client_id) ≡ false = ground (arith, peer) in
      rw not_client (send_peer-same msg io stream to (ap io.conns is_j ∙ open_conn))

  -- What one action puts on the connection.
  unfoldable pub sent_by : Action → TcpStream → TcpStream
  sent_by (Action.send msg) stream = if msg.to == j then sent_on s msg stream else stream
  sent_by (Action.append_entries _) stream = stream
  sent_by (Action.truncate_and_append _ _) stream = stream
  sent_by (Action.persist_hard_state _ _) stream = stream
  sent_by (Action.apply _) stream = stream
  sent_by (Action.persist_snapshot _ _ _) stream = stream

  pub process_action-conns :
      (a : Action) (io next : Io) (stream : TcpStream)
      → j ≢ client_id
      → process_action s addrs a io ≡ some next
      → io.conns j ≡ some stream
      → next.conns j ≡ some (sent_by a stream)
  unfolding process_action sent_by
  process_action-conns (Action.send msg) io next stream peer ran open_conn =
      ap (λ (i : Io). i.conns j) (sym (some_inj ran)) ∙ on_send
    where
      on_send :
          (send_action s addrs msg io).conns j
          ≡ some (if msg.to == j then sent_on s msg stream else stream)
      on_send = elim (Bool-cases (msg.to == j)) [
        | inl to ↦ rw to (send_action-same msg io stream peer to open_conn)
        | inr to ↦ rw to (send_action-other msg io to ∙ open_conn)
      ]
  process_action-conns (Action.append_entries es) io next stream peer ran open_conn =
      ap (λ (f : HashMap TcpStream). f j) (unwrap-conns io next _ ran) ∙ open_conn
  process_action-conns (Action.truncate_and_append i es) io next stream peer ran open_conn =
      ap (λ (f : HashMap TcpStream). f j) (unwrap-conns io next _ ran) ∙ open_conn
  process_action-conns (Action.persist_hard_state t v) io next stream peer ran open_conn =
      ap (λ (f : HashMap TcpStream). f j) (unwrap-conns io next _ ran) ∙ open_conn
  process_action-conns (Action.apply es) io next stream peer ran open_conn =
      ap (λ (i : Io). i.conns j) (sym (some_inj ran)) ∙ open_conn
  process_action-conns (Action.persist_snapshot i t p) io next stream peer ran open_conn =
      ap (λ (i : Io). i.conns j) (sym (some_inj ran)) ∙ open_conn
