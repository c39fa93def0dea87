-- ===== src/Election/VoteEvents.antt =====
-- The votes of a node over the messages that `step` of raft-core/src/node.rs handles.
use raft_rupee.Base.{
  ◌≡◌, refl, inl, inr, none, some, false, arith, All, Bool-cases, ltb, if_cases, map-eq-some,
  some_inj, subst, ◌&&◌,
}
use raft_rupee.Message.{Message, MessageKind}
use raft_rupee.Node.State.{RaftNode, Rng, Outcome, done}
use raft_rupee.Node.Step.{dispatch, meet_term, step, is_peer_msg}
use raft_rupee.Election.Evidence.{CastsNone}
use raft_rupee.Election.Steady.{
  done-IsSteady, handle_pre_vote-IsSteady, handle_request_vote_response-IsSteady,
}
use raft_rupee.Election.SteadyHandlers.{
  handle_client_request-IsSteady, handle_append_entries_response-IsSteady,
  handle_install_snapshot_response-IsSteady,
}
use raft_rupee.Election.Voting.{
  IsVoteSafe, HasRoom, IsSteady-IsVoteSafe, quiet-▷, handle_request_vote-IsVoteSafe,
}
use raft_rupee.Election.VoteSteps.{
  become_follower-IsVoteSafe, become_follower-quiet, handle_pre_vote_response-IsVoteSafe,
  handle_append_entries-IsVoteSafe, handle_install_snapshot-IsVoteSafe,
}

module _ (r : Rng) where
  dispatch-IsVoteSafe :
      (msg : Message) (kind : MessageKind) (n : RaftNode) {o : Outcome}
      → (is_peer_msg kind ≡ false → HasRoom n)
      → dispatch r msg kind n ≡ some o
      → IsVoteSafe n o
  unfolding dispatch
  dispatch-IsVoteSafe msg (MessageKind.client_request c) n room h =
      subst (IsVoteSafe n) (some_inj h)
        (IsSteady-IsVoteSafe (handle_client_request-IsSteady n msg c))
  dispatch-IsVoteSafe msg (MessageKind.client_response _ _) n room h =
      subst (IsVoteSafe n) (some_inj h) (IsSteady-IsVoteSafe (done-IsSteady n))
  dispatch-IsVoteSafe msg (MessageKind.pre_vote i t) n room h =
      subst (IsVoteSafe n) (some_inj h)
        (IsSteady-IsVoteSafe (handle_pre_vote-IsSteady n msg.from msg.term i t))
  dispatch-IsVoteSafe msg (MessageKind.pre_vote_response g) n room h =
      subst (IsVoteSafe n) (some_inj h)
        (handle_pre_vote_response-IsVoteSafe r n msg.from msg.term g (room refl))
  dispatch-IsVoteSafe msg (MessageKind.request_vote i t) n room h =
      subst (IsVoteSafe n) (some_inj h) (handle_request_vote-IsVoteSafe n msg.from i t)
  dispatch-IsVoteSafe msg (MessageKind.request_vote_response g) n room h =
      subst (IsVoteSafe n) (some_inj h)
        (IsSteady-IsVoteSafe (handle_request_vote_response-IsSteady n msg.from msg.term g))
  dispatch-IsVoteSafe msg (MessageKind.append_entries i t es c) n room h =
      handle_append_entries-IsVoteSafe r n msg.from msg.term i t es c h
  dispatch-IsVoteSafe msg (MessageKind.append_entries_response s t i) n room h =
      subst (IsVoteSafe n) (some_inj h)
        (IsSteady-IsVoteSafe (handle_append_entries_response-IsSteady n msg.from msg.term s t i))
  dispatch-IsVoteSafe msg (MessageKind.install_snapshot i t _ b d) n room h =
      subst (IsVoteSafe n) (some_inj h)
        (handle_install_snapshot-IsVoteSafe r n msg.from msg.term i t b d)
  dispatch-IsVoteSafe msg MessageKind.install_snapshot_response n room h =
      subst (IsVoteSafe n) (some_inj h)
        (IsSteady-IsVoteSafe (handle_install_snapshot_response-IsSteady n msg.from msg.term))

  meet_term-IsVoteSafe : (n : RaftNode) (msg : Message) → IsVoteSafe n (meet_term r n msg)
  unfolding meet_term
  meet_term-IsVoteSafe n msg =
      if_cases (IsVoteSafe n) (ltb n.current_term msg.term && is_peer_msg msg.kind) _ _
        (λ h. become_follower-IsVoteSafe r n msg.term none (ground arith))
        (λ _. IsSteady-IsVoteSafe (done-IsSteady n))

  meet_term-quiet : (n : RaftNode) (msg : Message) → All CastsNone (meet_term r n msg).1
  unfolding meet_term
  meet_term-quiet n msg =
      if_cases {A = Outcome} (λ o. All CastsNone o.1)
        (ltb n.current_term msg.term && is_peer_msg msg.kind) _ _
        (λ _. become_follower-quiet r n msg.term none) (λ _. tt)

  meet_term_other :
      (n : RaftNode) (msg : Message) → is_peer_msg msg.kind ≡ false → meet_term r n msg ≡ done n
  unfolding meet_term
  meet_term_other n msg h = ground arith

  pub step-IsVoteSafe :
      (n : RaftNode) (msg : Message) {o : Outcome}
      → HasRoom n
      → step r n msg ≡ some o
      → IsVoteSafe n o
  unfolding step
  step-IsVoteSafe n msg room h =
      let m = meet_term r n msg in
      elim (Bool-cases (ltb msg.term m.0.current_term && is_peer_msg msg.kind)) [
        | inl stale ↦ subst (IsVoteSafe n) (some_inj (rw stale at h)) (meet_term-IsVoteSafe n msg)
        | inr fresh ↦
            let (p, q, e) = map-eq-some _ (dispatch r msg msg.kind m.0) (rw fresh at h) in
            subst (IsVoteSafe n) e (
              quiet-▷ m (meet_term-IsVoteSafe n msg) (meet_term-quiet n msg) (
                dispatch-IsVoteSafe msg msg.kind m.0
                  (λ other. rw (meet_term_other n msg other) room) q))
      ]
