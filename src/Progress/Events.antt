-- ===== src/Progress/Events.antt =====
-- The clock and the messages of raft-core/src/node.rs: panics, and the soundness of a node.
use raft_rupee.Base.{
  ℕ, ◌+◌, ◌<◌, ◌≡◌, refl, Option, Bool, some, none, u64_mod, if_cases, ltb, leb, ◌&&◌, add64,
}
use raft_rupee.Types.{LogIndex, Term, NodeId}
use raft_rupee.Message.{Bytes, Message, MessageKind}
use raft_rupee.Node.State.{RaftNode, Rng, Outcome, done, is_leader}
use raft_rupee.Node.Replicate.{broadcast_heartbeats}
use raft_rupee.Node.Election.{become_follower, start_pre_vote}
use raft_rupee.Node.Snapshot.{handle_install_snapshot}
use raft_rupee.Node.Step.{is_peer_msg, tick, dispatch, meet_term, step}
use raft_rupee.Progress.Sound.{
  IsSound, HasLogRoom, Progresses, IsSoundKind, done-Progresses, push-Progresses, ▷-Progresses,
  Progresses-of_same, broadcast-Progresses,
}
use raft_rupee.Progress.Elections.{
  become_follower-Progresses, become_follower-log, start_pre_vote-Progresses,
  handle_pre_vote-Progresses, handle_pre_vote_response-Progresses, handle_request_vote-Progresses,
  handle_request_vote_response-Progresses,
}
use raft_rupee.Progress.Entries.{
  NoPanic, some-NoPanic, map-NoPanic, handle_append_entries-NoPanic,
  handle_append_entries_response-Progresses,
}
use raft_rupee.Progress.Steps.{
  take_snapshot-Progresses, handle_install_snapshot_response-Progresses,
  handle_client_request-Progresses,
}

module _ (r : Rng) where
  handle_install_snapshot-Progresses :
      (n : RaftNode) (from : NodeId) (t : Term) (i : LogIndex) (u : Term) (payload : Bytes)
      (complete : Bool)
      → IsSound n
      → i + 1 < u64_mod
      → Progresses n (handle_install_snapshot r n from t i u payload complete)
  unfolding handle_install_snapshot
  handle_install_snapshot-Progresses n from t i u payload complete s fits =
      if_cases (Progresses n) (ltb t n.current_term) _ _ (λ _. push-Progresses n _ s tt)
        (λ _.
          ▷-Progresses (become_follower r t (some from) n) _
            (become_follower-Progresses r t (some from) n s)
            (λ s'. take_snapshot-Progresses from i u payload complete _ s' fits))

  -- A sound node whose log has room for one more entry stays sound when the clock ticks, lowers
  -- neither its commit index nor its last applied index, and sends sound messages only.
  pub tick-Progresses : (n : RaftNode) → IsSound n → HasLogRoom n → Progresses n (tick r n)
  unfolding tick
  tick-Progresses n s room =
      if_cases (Progresses n) (is_leader n.role) _ _
        (λ _.
          if_cases (Progresses n) (leb n.heartbeat_interval beat.heartbeat_elapsed)
            (reset, broadcast_heartbeats reset) (done beat)
            (λ _. Progresses-of_same reset n (refl, refl) (broadcast-Progresses reset (same s)))
            (λ _. Progresses-of_same beat n (refl, refl) (done-Progresses beat (same s))))
        (λ _.
          if_cases (Progresses n) (leb n.election_timeout waited.election_elapsed)
            (start_pre_vote r expired) (done waited)
            (λ _.
              Progresses-of_same expired n (refl, refl)
                (start_pre_vote-Progresses r expired (same s) room))
            (λ _. Progresses-of_same waited n (refl, refl) (done-Progresses waited (same s))))
    where
      beat : RaftNode
      beat = record n { heartbeat_elapsed = add64 n.heartbeat_elapsed 1 }

      reset : RaftNode
      reset = record n { heartbeat_elapsed = 0 }

      waited : RaftNode
      waited = record n { election_elapsed = add64 n.election_elapsed 1 }

      expired : RaftNode
      expired = record n { election_elapsed = 0 }

      same :
          {a b : ℕ} → IsSound n → IsSound (record n { heartbeat_elapsed = a; election_elapsed = b })
      same s = record { log = s.log; applied = s.applied; fits = s.fits }

  dispatch-NoPanic :
      (msg : Message) (kind : MessageKind) (n : RaftNode)
      → IsSound n
      → HasLogRoom n
      → IsSoundKind kind
      → NoPanic n (dispatch r msg kind n)
  unfolding dispatch
  dispatch-NoPanic msg (MessageKind.client_request c) n s room k =
      some-NoPanic (handle_client_request-Progresses n msg c s room)
  dispatch-NoPanic msg (MessageKind.client_response _ _) n s room k =
      some-NoPanic (done-Progresses n s)
  dispatch-NoPanic msg (MessageKind.pre_vote i t) n s room k =
      some-NoPanic (handle_pre_vote-Progresses n msg.from msg.term i t s)
  dispatch-NoPanic msg (MessageKind.pre_vote_response g) n s room k =
      some-NoPanic (handle_pre_vote_response-Progresses r n msg.from msg.term g s room)
  dispatch-NoPanic msg (MessageKind.request_vote i t) n s room k =
      some-NoPanic (handle_request_vote-Progresses n msg.from i t s)
  dispatch-NoPanic msg (MessageKind.request_vote_response g) n s room k =
      some-NoPanic (handle_request_vote_response-Progresses n msg.from msg.term g s room)
  dispatch-NoPanic msg (MessageKind.append_entries i t es c) n s room k =
      handle_append_entries-NoPanic r n msg.from msg.term i t es c s k
  dispatch-NoPanic msg (MessageKind.append_entries_response b t i) n s room k =
      some-NoPanic (handle_append_entries_response-Progresses n msg.from msg.term b t i s)
  dispatch-NoPanic msg (MessageKind.install_snapshot i t _ b d) n s room k =
      some-NoPanic (handle_install_snapshot-Progresses n msg.from msg.term i t b d s k)
  dispatch-NoPanic msg MessageKind.install_snapshot_response n s room k =
      some-NoPanic (handle_install_snapshot_response-Progresses n msg.from msg.term s)

  meet_term-Progresses :
      (n : RaftNode) (msg : Message) → IsSound n → Progresses n (meet_term r n msg)
  unfolding meet_term
  meet_term-Progresses n msg s =
      if_cases (Progresses n) (ltb n.current_term msg.term && is_peer_msg msg.kind) _ _
        (λ _. become_follower-Progresses r msg.term none n s) (λ _. done-Progresses n s)

  pub meet_term-log : (n : RaftNode) (msg : Message) → (meet_term r n msg).0.log ≡ n.log
  unfolding meet_term
  meet_term-log n msg =
      if_cases {A = Outcome} (λ o. o.0.log ≡ n.log)
        (ltb n.current_term msg.term && is_peer_msg msg.kind) _ _
        (λ _. become_follower-log r msg.term none n) (λ _. refl)

  -- A sound node whose log has room for one more entry does not panic on a message with sound
  -- contents, from any node and in any role and term: `step` returns, the node is sound again, it
  -- lowers neither its commit index nor its last applied index, and all that it sends is sound.
  pub step-NoPanic :
      (n : RaftNode) (msg : Message)
      → IsSound n
      → HasLogRoom n
      → IsSoundKind msg.kind
      → NoPanic n (step r n msg)
  unfolding step
  step-NoPanic n msg s room k =
      let m = meet_term r n msg in
      let p = meet_term-Progresses n msg s in
      if_cases {A = Option Outcome} (NoPanic n)
        (ltb msg.term m.0.current_term && is_peer_msg msg.kind) _ _ (λ _. some-NoPanic p)
        (λ _.
          map-NoPanic m _ p
            (dispatch-NoPanic msg msg.kind m.0 p.sound (rw (meet_term-log n msg) room) k))
