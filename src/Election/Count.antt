-- ===== src/Election/Count.antt =====
-- `step` of raft-core/src/node.rs and the count of votes, message by message.
use raft_rupee.Base.{
  ℕ, ◌≡◌, refl, none, some, true, arith, Bool-cases, ltb, if_cases, map-eq-some, some_inj, subst,
  ◌&&◌, inl, inr,
}
use raft_rupee.Types.{Term, NodeId}
use raft_rupee.Message.{Message, MessageKind}
use raft_rupee.Node.State.{RaftNode, Rng, Outcome}
use raft_rupee.Node.Election.{handle_pre_vote}
use raft_rupee.Node.Step.{dispatch, meet_term, step, is_peer_msg}
use raft_rupee.Election.Evidence.{is_grant}
use raft_rupee.Election.Kept.{
  Keeps, done-Keeps, handle_client_request-Keeps, handle_append_entries_response-Keeps,
  handle_install_snapshot_response-Keeps, handle_request_vote-Keeps,
}
use raft_rupee.Election.Tally.{
  Tallies, Keeps-Tallies, ▷-Tallies, handle_request_vote_response-Tallies,
}
use raft_rupee.Election.TallySteps.{
  become_follower-IsElected, become_follower-id, handle_pre_vote_response-Tallies,
  handle_append_entries-Tallies, handle_install_snapshot-Tallies,
}

handle_pre_vote-Keeps :
    (n : RaftNode) (from : NodeId) (t : Term) (i : ℕ) (u : Term)
    → Keeps n (handle_pre_vote n from t i u)
unfolding handle_pre_vote
handle_pre_vote-Keeps n from t i u = ground arith

module _ (P : Term → NodeId → Type 0) (r : Rng) where
  dispatch-Tallies :
      (msg : Message) (kind : MessageKind) (n : RaftNode) (o : Outcome)
      → (is_grant kind ≡ true → P msg.term msg.from)
      → dispatch r msg kind n ≡ some o
      → Tallies P n o
  unfolding dispatch
  dispatch-Tallies msg (MessageKind.client_request c) n o g h =
      subst (Tallies P n) (some_inj h) (Keeps-Tallies P (handle_client_request-Keeps n msg c))
  dispatch-Tallies msg (MessageKind.client_response _ _) n o g h =
      subst (Tallies P n) (some_inj h) (Keeps-Tallies P (done-Keeps n))
  dispatch-Tallies msg (MessageKind.pre_vote i t) n o g h =
      subst (Tallies P n) (some_inj h)
        (Keeps-Tallies P (handle_pre_vote-Keeps n msg.from msg.term i t))
  dispatch-Tallies msg (MessageKind.pre_vote_response granted) n o g h =
      subst (Tallies P n) (some_inj h)
        (handle_pre_vote_response-Tallies P r n msg.from msg.term granted)
  dispatch-Tallies msg (MessageKind.request_vote i t) n o g h =
      subst (Tallies P n) (some_inj h) (Keeps-Tallies P (handle_request_vote-Keeps n msg.from i t))
  dispatch-Tallies msg (MessageKind.request_vote_response granted) n o g h =
      subst (Tallies P n) (some_inj h)
        (handle_request_vote_response-Tallies P n msg.from msg.term granted g)
  dispatch-Tallies msg (MessageKind.append_entries i t es c) n o g h =
      handle_append_entries-Tallies P r n msg.from msg.term i t es c o h
  dispatch-Tallies msg (MessageKind.append_entries_response s t i) n o g h =
      subst (Tallies P n) (some_inj h)
        (Keeps-Tallies P (handle_append_entries_response-Keeps n msg.from msg.term s t i))
  dispatch-Tallies msg (MessageKind.install_snapshot i t _ b d) n o g h =
      subst (Tallies P n) (some_inj h)
        (handle_install_snapshot-Tallies P r n msg.from msg.term i t b d)
  dispatch-Tallies msg MessageKind.install_snapshot_response n o g h =
      subst (Tallies P n) (some_inj h)
        (Keeps-Tallies P (handle_install_snapshot_response-Keeps n msg.from msg.term))

  meet_term-Tallies : (n : RaftNode) (msg : Message) → Tallies P n (meet_term r n msg)
  unfolding meet_term
  meet_term-Tallies n msg =
      if_cases (Tallies P n) (ltb n.current_term msg.term && is_peer_msg msg.kind) _ _
        (λ _ own. become_follower-IsElected P r n msg.term none) (λ _ own v. v)

  meet_term-id : (n : RaftNode) (msg : Message) → (meet_term r n msg).0.id ≡ n.id
  unfolding meet_term
  meet_term-id n msg =
      if_cases {A = Outcome} (λ o. o.0.id ≡ n.id)
        (ltb n.current_term msg.term && is_peer_msg msg.kind) _ _
        (λ _. become_follower-id P r n msg.term none) (λ _. refl)

  pub step-Tallies :
      (n : RaftNode) (msg : Message) (o : Outcome)
      → (is_grant msg.kind ≡ true → P msg.term msg.from)
      → step r n msg ≡ some o
      → Tallies P n o
  unfolding step
  step-Tallies n msg o g h =
      let m = meet_term r n msg in
      elim (Bool-cases (ltb msg.term m.0.current_term && is_peer_msg msg.kind)) [
        | inl stale ↦ subst (Tallies P n) (some_inj (rw stale at h)) (meet_term-Tallies n msg)
        | inr fresh ↦
            let (p, q, e) = map-eq-some _ (dispatch r msg msg.kind m.0) (rw fresh at h) in
            subst (Tallies P n) e (
              ▷-Tallies P m p (meet_term-id n msg) (meet_term-Tallies n msg)
                (dispatch-Tallies msg msg.kind m.0 p g q))
      ]
