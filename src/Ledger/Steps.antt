-- ===== src/Ledger/Steps.antt =====
-- `tick` and `step` of raft-core/src/node.rs, and the entries that they create.
use raft_rupee.Base.{
  ◌≡◌, refl, List, [], Option, Bool, some, none, false, arith, subst, if_cases, ltb, leb,
  ltb-false→le, ◌&&◌, map-eq-some, some_inj, add64,
}
use raft_rupee.Types.{LogIndex, Term, NodeId}
use raft_rupee.Message.{Bytes, LogEntry, Message, MessageKind}
use raft_rupee.Log.{term_at}
use raft_rupee.Log.Bounds.{IsLog}
use raft_rupee.Node.State.{RaftNode, Rng, Outcome, ◌▷◌, is_leader, done}
use raft_rupee.Node.Replicate.{broadcast_heartbeats}
use raft_rupee.Node.Election.{become_follower, start_pre_vote}
use raft_rupee.Node.Entries.{check_previous, handle_append_entries}
use raft_rupee.Node.Snapshot.{take_snapshot, handle_install_snapshot}
use raft_rupee.Node.Step.{is_peer_msg, tick, dispatch, meet_term, step}
use raft_rupee.Election.Voting.{HasRoom}
use raft_rupee.Replication.Leader.{become_follower-role}
use raft_rupee.Progress.Sound.{HasLogRoom, IsSoundKind}
use raft_rupee.Progress.Elections.{become_follower-log}
use raft_rupee.Progress.Events.{meet_term-log}
use raft_rupee.Ledger.Chain.{Ledger}
use raft_rupee.Ledger.Lawful.{enters, LinkedKind, Lawful, Calm-Lawful, done-Lawful, Lawful-of_same}
use raft_rupee.Ledger.Sends.{broadcast-enters, broadcast-LinkedAction, push-Lawful, then-Lawful}
use raft_rupee.Ledger.Elections.{
  become_follower-enters, handle_pre_vote-Lawful, handle_request_vote-Lawful,
  handle_request_vote_response-Lawful,
}
use raft_rupee.Ledger.Campaigns.{
  become_follower-Lawful, start_pre_vote-Lawful, handle_pre_vote_response-Lawful,
}
use raft_rupee.Ledger.Appends.{check_previous-Lawful, handle_append_entries_response-Lawful}
use raft_rupee.Ledger.Events.{
  take_snapshot-Lawful, handle_install_snapshot_response-Lawful, handle_client_request-Lawful,
}

module _ (k : Ledger) (r : Rng) where
  handle_append_entries-Lawful :
      (n : RaftNode) (from : NodeId) (t : Term) (before : LogIndex) (u : Term) (es : List LogEntry)
      (commit : LogIndex) {o : Outcome}
      → IsLog n.log
      → IsSoundKind (MessageKind.append_entries before u es commit)
      → LinkedKind k (MessageKind.append_entries before u es commit)
      → handle_append_entries r n from t before u es commit ≡ some o
      → Lawful k n o
  unfolding handle_append_entries
  handle_append_entries-Lawful n from t before u es commit {o} v sound linked done =
      let f = become_follower r t (some from) n in
      let same = become_follower-log r t (some from) n in
      if_cases {A = Option Outcome} (λ x. x ≡ some o → Lawful k n o) (ltb t n.current_term) _ _
        (λ _ e. subst (Lawful k n) (some_inj e) (push-Lawful k n _ refl (λ _. tt)))
        (λ newer e.
          let (p, q, s) =
            map-eq-some _ (check_previous f.0 from before u es commit (term_at f.0.log before)) e in
          subst (Lawful k n) s (
            then-Lawful k f p (become_follower-Lawful k r t (some from) n (ltb-false→le _ _ newer))
              (check_previous-Lawful k f.0 from before u es commit
                (become_follower-role r t (some from) n) (rw same v) sound.0 sound.1 linked q)
              (become_follower-enters k r t (some from) n) same))
        done

  handle_install_snapshot-Lawful :
      (n : RaftNode) (from : NodeId) (t : Term) (i : LogIndex) (u : Term) (payload : Bytes)
      (complete : Bool)
      → Lawful k n (handle_install_snapshot r n from t i u payload complete)
  unfolding handle_install_snapshot ◌▷◌
  handle_install_snapshot-Lawful n from t i u payload complete =
      let f = become_follower r t (some from) n in
      if_cases {A = Outcome} (Lawful k n) (ltb t n.current_term) _ _
        (λ _. push-Lawful k n _ refl (λ _. tt))
        (λ newer.
          then-Lawful k f (take_snapshot from i u payload complete f.0)
            (become_follower-Lawful k r t (some from) n (ltb-false→le _ _ newer))
            (take_snapshot-Lawful k from i u payload complete f.0
              (become_follower-role r t (some from) n))
            (become_follower-enters k r t (some from) n) (become_follower-log r t (some from) n))

  pub tick-Lawful : (n : RaftNode) → HasRoom n → Lawful k n (tick r n)
  unfolding tick broadcast_heartbeats
  tick-Lawful n room =
      let beat : RaftNode = record n { heartbeat_elapsed = add64 n.heartbeat_elapsed 1 } in
      let reset : RaftNode = record n { heartbeat_elapsed = 0 } in
      let waited : RaftNode = record n { election_elapsed = add64 n.election_elapsed 1 } in
      let expired : RaftNode = record n { election_elapsed = 0 } in
      if_cases {A = Outcome} (Lawful k n) (is_leader n.role) _ _
        (λ _.
          if_cases {A = Outcome} (Lawful k n) (leb n.heartbeat_interval beat.heartbeat_elapsed)
            (reset, broadcast_heartbeats reset) (done beat)
            (λ _.
              Calm-Lawful k
                (record { silent = broadcast-enters reset; role = refl; term = refl; log = refl })
                (λ h. broadcast-LinkedAction k reset h))
            (λ _. Lawful-of_same k beat n (refl, refl, refl) (done-Lawful k beat)))
        (λ _.
          if_cases {A = Outcome} (Lawful k n) (leb n.election_timeout waited.election_elapsed)
            (start_pre_vote r expired) (done waited)
            (λ _.
              Lawful-of_same k expired n (refl, refl, refl)
                (start_pre_vote-Lawful k r expired room))
            (λ _. Lawful-of_same k waited n (refl, refl, refl) (done-Lawful k waited)))

  dispatch-Lawful :
      (msg : Message) (kind : MessageKind) (n : RaftNode) {o : Outcome}
      → (is_peer_msg kind ≡ false → HasRoom n)
      → HasLogRoom n
      → IsLog n.log
      → IsSoundKind kind
      → LinkedKind k kind
      → dispatch r msg kind n ≡ some o
      → Lawful k n o
  unfolding dispatch
  dispatch-Lawful msg (MessageKind.client_request c) n room space v s l e =
      subst (Lawful k n) (some_inj e) (handle_client_request-Lawful k n msg c space)
  dispatch-Lawful msg (MessageKind.client_response _ _) n room space v s l e =
      subst (Lawful k n) (some_inj e) (done-Lawful k n)
  dispatch-Lawful msg (MessageKind.pre_vote i t) n room space v s l e =
      subst (Lawful k n) (some_inj e) (handle_pre_vote-Lawful k n msg.from msg.term i t)
  dispatch-Lawful msg (MessageKind.pre_vote_response g) n room space v s l e =
      subst (Lawful k n) (some_inj e)
        (handle_pre_vote_response-Lawful k r n msg.from msg.term g (room refl))
  dispatch-Lawful msg (MessageKind.request_vote i t) n room space v s l e =
      subst (Lawful k n) (some_inj e) (handle_request_vote-Lawful k n msg.from i t)
  dispatch-Lawful msg (MessageKind.request_vote_response g) n room space v s l e =
      subst (Lawful k n) (some_inj e) (handle_request_vote_response-Lawful k n msg.from msg.term g)
  dispatch-Lawful msg (MessageKind.append_entries i t es c) n room space v s l e =
      handle_append_entries-Lawful n msg.from msg.term i t es c v s l e
  dispatch-Lawful msg (MessageKind.append_entries_response b t i) n room space v s l e =
      subst (Lawful k n) (some_inj e)
        (handle_append_entries_response-Lawful k n msg.from msg.term b t i)
  dispatch-Lawful msg (MessageKind.install_snapshot i t _ b d) n room space v s l e =
      subst (Lawful k n) (some_inj e) (handle_install_snapshot-Lawful n msg.from msg.term i t b d)
  dispatch-Lawful msg MessageKind.install_snapshot_response n room space v s l e =
      subst (Lawful k n) (some_inj e)
        (handle_install_snapshot_response-Lawful k n msg.from msg.term)

  meet_term-enters : (n : RaftNode) (msg : Message) → enters (meet_term r n msg).1 ≡ []
  unfolding meet_term
  meet_term-enters n msg =
      if_cases {A = Outcome} (λ o. enters o.1 ≡ [])
        (ltb n.current_term msg.term && is_peer_msg msg.kind) _ _
        (λ _. become_follower-enters k r msg.term none n) (λ _. refl)

  meet_term-Lawful : (n : RaftNode) (msg : Message) → Lawful k n (meet_term r n msg)
  unfolding meet_term
  meet_term-Lawful n msg =
      if_cases {A = Outcome} (Lawful k n) (ltb n.current_term msg.term && is_peer_msg msg.kind) _ _
        (λ newer. become_follower-Lawful k r msg.term none n (ground arith)) (λ _. done-Lawful k n)

  meet_term-HasRoom :
      (n : RaftNode) (msg : Message)
      → HasRoom n
      → is_peer_msg msg.kind ≡ false
      → HasRoom (meet_term r n msg).0
  unfolding meet_term
  meet_term-HasRoom n msg room h =
      let off : (ltb n.current_term msg.term && is_peer_msg msg.kind) ≡ false = ground arith in
      rw off room

  -- The message is sound, and its entries follow the ledger.
  pub step-Lawful :
      (n : RaftNode) (msg : Message) {o : Outcome}
      → HasRoom n
      → HasLogRoom n
      → IsLog n.log
      → IsSoundKind msg.kind
      → LinkedKind k msg.kind
      → step r n msg ≡ some o
      → Lawful k n o
  unfolding step
  step-Lawful n msg {o} room space v sound linked done =
      let m = meet_term r n msg in
      let same = meet_term-log r n msg in
      let first = meet_term-Lawful n msg in
      if_cases {A = Option Outcome} (λ x. x ≡ some o → Lawful k n o)
        (ltb msg.term m.0.current_term && is_peer_msg msg.kind) _ _
        (λ _ e. subst (Lawful k n) (some_inj e) first)
        (λ _ e.
          let (p, q, s) = map-eq-some _ (dispatch r msg msg.kind m.0) e in
          subst (Lawful k n) s (
            then-Lawful k m p first
              (dispatch-Lawful msg msg.kind m.0 (meet_term-HasRoom n msg room) (rw same space)
                (rw same v) sound linked q)
              (meet_term-enters n msg) same))
        done
