-- ===== src/Sim/SyncSteps.antt =====
-- The disk of raft-sim/src/storage.rs over the entry points of raft-core/src/node.rs.
use raft_rupee.Base.{
  ◌<◌, ◌≡◌, refl, ap, List, Option, Bool, some, none, arith, if_cases, ltb, leb, ◌&&◌, map-eq-some,
  some_inj, subst, add64,
}
use raft_rupee.Types.{LogIndex, Term, NodeId}
use raft_rupee.Message.{LogEntry, Bytes, Message, MessageKind}
use raft_rupee.Log.{RaftLog, entries, last_index, compact, install_snapshot}
use raft_rupee.Log.Bounds.{IsLog, last_index_lem}
use raft_rupee.Node.State.{RaftNode, Rng, Outcome, ◌▷◌, is_leader}
use raft_rupee.Node.Replicate.{broadcast_heartbeats}
use raft_rupee.Node.Election.{become_follower, handle_pre_vote}
use raft_rupee.Node.Entries.{check_previous, handle_append_entries}
use raft_rupee.Node.Snapshot.{take_snapshot, handle_install_snapshot}
use raft_rupee.Node.Step.{tick, dispatch, meet_term, step, is_peer_msg}
use raft_rupee.Progress.Sound.{HasLogRoom, IsSoundKind}
use raft_rupee.Progress.Elections.{become_follower-log}
use raft_rupee.Progress.Events.{meet_term-log}
use raft_rupee.Sim.Disk.{process_actions, persist}
use raft_rupee.Sim.Writes.{write_snapshot_lem}
use raft_rupee.Sim.Quiet.{
  IsQuiet, become_follower-IsQuiet, broadcast-IsLogQuiet, handle_request_vote-IsQuiet,
  handle_append_entries_response-IsQuiet, handle_install_snapshot_response-IsQuiet,
}
use raft_rupee.Sim.Tracking.{
  Tracks, ▷-Tracks, IsQuiet-Tracks, Tracks-of_same, handle_client_request-Tracks,
  handle_pre_vote_response-Tracks, handle_request_vote_response-Tracks, start_pre_vote-Tracks,
}
use raft_rupee.Sim.Sync.{check_previous-Tracks}

-- A snapshot that the disk can take over: it is beyond the log.
abbrev pub IsBeyond : RaftLog → MessageKind → Type 0
IsBeyond l (MessageKind.install_snapshot i _ _ _ _) = last_index l < i
IsBeyond l _ = Unit {0}

compact-install_snapshot :
    (l : RaftLog) (i : LogIndex) (t : Term)
    → IsLog l
    → last_index l < i
    → compact l i t
      ≡ install_snapshot l (record { last_included_index = i; last_included_term = t })
unfolding compact install_snapshot
compact-install_snapshot l i t v h = ground (arith, last_index_lem v)

take_snapshot-Tracks :
    (from : NodeId) (i : LogIndex) (t : Term) (payload : Bytes) (complete : Bool) (n : RaftNode)
    → IsLog n.log
    → last_index n.log < i
    → Tracks n (take_snapshot from i t payload complete n)
unfolding take_snapshot process_actions persist
take_snapshot-Tracks from i t payload complete n v beyond =
    if_cases {A = Outcome} (Tracks n) (leb i n.commit_index) _ _
      (λ _. IsQuiet-Tracks n _ (refl, (tt, tt)))
      (λ _.
        if_cases {A = Outcome} (Tracks n) complete _ _
          (λ _. record {
            follow = λ d h. record {
              disk = record d {
                snapshot =
                    some (record { last_included_index = i; last_included_term = t }, payload);
                log_entries = entries (compact n.log i t);
              };
              written = rw (process_actions, write_snapshot_lem d n.log i t payload h) refl;
              holds = ap entries (compact-install_snapshot n.log i t v beyond);
            };
          })
          (λ _. IsQuiet-Tracks n _ (refl, (tt, tt))))

module _ (r : Rng) where
  handle_append_entries-Tracks :
      (n : RaftNode) (from : NodeId) (t : Term) (before : LogIndex) (u : Term) (es : List LogEntry)
      (commit : LogIndex) {o : Outcome}
      → IsLog n.log
      → IsSoundKind (MessageKind.append_entries before u es commit)
      → handle_append_entries r n from t before u es commit ≡ some o
      → Tracks n o
  unfolding handle_append_entries
  handle_append_entries-Tracks n from t before u es commit {o} v k h =
      let f = become_follower r t (some from) n in
      if_cases {A = Option Outcome} (λ x. x ≡ some o → Tracks n o) (ltb t n.current_term) _ _
        (λ _ e. subst (Tracks n) (some_inj e) (IsQuiet-Tracks n _ (refl, (tt, tt))))
        (λ _ e.
          let (p, q, s) = map-eq-some _ (check_previous f.0 from before u es commit _) e in
          let v' : IsLog f.0.log = rw (become_follower-log r t (some from) n) v in
          subst (Tracks n) s (
            ▷-Tracks n f p (IsQuiet-Tracks n f (become_follower-IsQuiet r t (some from) n))
              (check_previous-Tracks f.0 from before u es commit _ v' k refl q)))
        h

  handle_install_snapshot-Tracks :
      (n : RaftNode) (from : NodeId) (t : Term) (i : LogIndex) (u : Term) (payload : Bytes)
      (complete : Bool)
      → IsLog n.log
      → last_index n.log < i
      → Tracks n (handle_install_snapshot r n from t i u payload complete)
  unfolding handle_install_snapshot ◌▷◌
  handle_install_snapshot-Tracks n from t i u payload complete v beyond =
      let f = become_follower r t (some from) n in
      let same = become_follower-log r t (some from) n in
      if_cases {A = Outcome} (Tracks n) (ltb t n.current_term) _ _
        (λ _. IsQuiet-Tracks n _ (refl, (tt, tt)))
        (λ _.
          ▷-Tracks n f _ (IsQuiet-Tracks n f (become_follower-IsQuiet r t (some from) n))
            (take_snapshot-Tracks from i u payload complete f.0 (rw same v) (rw same beyond)))

  pub tick-Tracks : (n : RaftNode) → IsLog n.log → HasLogRoom n → Tracks n (tick r n)
  unfolding tick broadcast_heartbeats
  tick-Tracks n v room =
      let beat = record n { heartbeat_elapsed = add64 n.heartbeat_elapsed 1 } in
      let reset = record n { heartbeat_elapsed = 0 } in
      let waited = record n { election_elapsed = add64 n.election_elapsed 1 } in
      let expired = record n { election_elapsed = 0 } in
      if_cases {A = Outcome} (Tracks n) (is_leader n.role) _ _
        (λ _.
          if_cases {A = Outcome} (Tracks n) (leb n.heartbeat_interval beat.heartbeat_elapsed) _ _
            (λ _. IsQuiet-Tracks n _ (refl, broadcast-IsLogQuiet reset))
            (λ _. IsQuiet-Tracks n _ (refl, tt)))
        (λ _.
          if_cases {A = Outcome} (Tracks n) (leb n.election_timeout waited.election_elapsed) _ _
            (λ _. Tracks-of_same expired n refl (start_pre_vote-Tracks r expired v room))
            (λ _. IsQuiet-Tracks n _ (refl, tt)))

  dispatch-Tracks :
      (msg : Message) (kind : MessageKind) (n : RaftNode) {o : Outcome}
      → IsLog n.log
      → HasLogRoom n
      → IsSoundKind kind
      → IsBeyond n.log kind
      → dispatch r msg kind n ≡ some o
      → Tracks n o
  unfolding dispatch handle_pre_vote
  dispatch-Tracks msg (MessageKind.client_request c) n v room k b h =
      subst (Tracks n) (some_inj h) (handle_client_request-Tracks n msg c v room)
  dispatch-Tracks msg (MessageKind.client_response _ _) n v room k b h =
      subst (Tracks n) (some_inj h) (IsQuiet-Tracks n _ (refl, tt))
  dispatch-Tracks msg (MessageKind.pre_vote i t) n v room k b h =
      subst (Tracks n) (some_inj h) (IsQuiet-Tracks n _ (refl, (tt, tt)))
  dispatch-Tracks msg (MessageKind.pre_vote_response g) n v room k b h =
      subst (Tracks n) (some_inj h) (handle_pre_vote_response-Tracks r n msg.from msg.term g v room)
  dispatch-Tracks msg (MessageKind.request_vote i t) n v room k b h =
      subst (Tracks n) (some_inj h)
        (IsQuiet-Tracks n _ (handle_request_vote-IsQuiet n msg.from i t))
  dispatch-Tracks msg (MessageKind.request_vote_response g) n v room k b h =
      subst (Tracks n) (some_inj h)
        (handle_request_vote_response-Tracks n msg.from msg.term g v room)
  dispatch-Tracks msg (MessageKind.append_entries i t es c) n v room k b h =
      handle_append_entries-Tracks n msg.from msg.term i t es c v k h
  dispatch-Tracks msg (MessageKind.append_entries_response s t i) n v room k b h =
      subst (Tracks n) (some_inj h)
        (IsQuiet-Tracks n _ (handle_append_entries_response-IsQuiet n msg.from msg.term s t i))
  dispatch-Tracks msg (MessageKind.install_snapshot i t _ p c) n v room k b h =
      subst (Tracks n) (some_inj h) (handle_install_snapshot-Tracks n msg.from msg.term i t p c v b)
  dispatch-Tracks msg MessageKind.install_snapshot_response n v room k b h =
      subst (Tracks n) (some_inj h)
        (IsQuiet-Tracks n _ (handle_install_snapshot_response-IsQuiet n msg.from msg.term))

  meet_term-IsQuiet : (n : RaftNode) (msg : Message) → IsQuiet n (meet_term r n msg)
  unfolding meet_term
  meet_term-IsQuiet n msg =
      if_cases {A = Outcome} (IsQuiet n) (ltb n.current_term msg.term && is_peer_msg msg.kind) _ _
        (λ _. become_follower-IsQuiet r msg.term none n) (λ _. (refl, tt))

  pub step-Tracks :
      (n : RaftNode) (msg : Message) {o : Outcome}
      → IsLog n.log
      → HasLogRoom n
      → IsSoundKind msg.kind
      → IsBeyond n.log msg.kind
      → step r n msg ≡ some o
      → Tracks n o
  unfolding step
  step-Tracks n msg {o} v room k b h =
      let m = meet_term r n msg in
      let q = IsQuiet-Tracks n m (meet_term-IsQuiet n msg) in
      let same = meet_term-log r n msg in
      if_cases {A = Option Outcome} (λ x. x ≡ some o → Tracks n o)
        (ltb msg.term m.0.current_term && is_peer_msg msg.kind) _ _
        (λ _ e. subst (Tracks n) (some_inj e) q)
        (λ _ e.
          let (p, d, s) = map-eq-some _ (dispatch r msg msg.kind m.0) e in
          subst (Tracks n) s (
            ▷-Tracks n m p q
              (dispatch-Tracks msg msg.kind m.0 (rw same v) (rw same room) k (rw same b) d)))
        h
