-- ===== src/Election/VoteSteps.antt =====
-- The votes of a node over the handlers and `tick` of raft-core/src/node.rs.
use raft_rupee.Base.{
  ◌≤◌, ◌≡◌, refl, inl, inr, List, Option, some, Bool, arith, All, All-mono, All-map, Bool-cases,
  ltb, leb, set_insert, if_cases, map-eq-some, some_inj, subst, not, ◌||◌, ◌==◌, length, add64,
}
use raft_rupee.Types.{Term, NodeId, LogIndex, next_term_of_lt}
use raft_rupee.Message.{LogEntry, Bytes}
use raft_rupee.Node.State.{RaftNode, Rng, Outcome, ◌▷◌, done, is_leader, is_pre_candidate}
use raft_rupee.Node.Commit.{majority}
use raft_rupee.Node.Replicate.{broadcast_heartbeats}
use raft_rupee.Node.Election.{
  is_alone, become_follower, campaign, canvass, start_pre_vote, start_real_election,
  handle_pre_vote_response,
}
use raft_rupee.Node.Entries.{check_previous, handle_append_entries}
use raft_rupee.Node.Snapshot.{handle_install_snapshot}
use raft_rupee.Node.Step.{tick}
use raft_rupee.Election.Evidence.{
  IsFrom, IsPlain, CastsNone, CastsOwn, stored, stored-plain, IsPlain-CastsNone,
}
use raft_rupee.Election.Steady.{
  IsSteady, done-IsSteady, broadcast_heartbeats-IsSteady, become_leader-IsSteady,
}
use raft_rupee.Election.SteadyHandlers.{check_previous-IsSteady, take_snapshot-IsSteady}
use raft_rupee.Election.Voting.{
  IsVoteSafe, HasRoom, IsSteady-IsVoteSafe, ▷-steady, quiet-▷, IsVoteSafe-of_same,
}

module _ (r : Rng) where
  pub become_follower-IsVoteSafe :
      (n : RaftNode) (t : Term) (leader : Option NodeId)
      → n.current_term ≤ t
      → IsVoteSafe n (become_follower r t leader n)
  unfolding become_follower stored
  become_follower-IsVoteSafe n t leader h = ground arith

  pub become_follower-quiet :
      (n : RaftNode) (t : Term) (leader : Option NodeId)
      → All CastsNone (become_follower r t leader n).1
  unfolding become_follower
  become_follower-quiet n t leader = ground arith

  pub become_follower-term :
      (n : RaftNode) (t : Term) (leader : Option NodeId)
      → (become_follower r t leader n).0.current_term ≡ t
  unfolding become_follower
  become_follower-term n t leader = ground arith

  campaign-IsVoteSafe : (n : RaftNode) → HasRoom n → IsVoteSafe n (campaign r n)
  unfolding campaign stored
  campaign-IsVoteSafe n room = record {
    same_id = refl;
    same_peers = refl;
    terms = omega (arith, next_term_of_lt n.current_term room);
    kept = λ c e v. absurd (omega (arith, next_term_of_lt n.current_term room));
    votes = (ground arith, All-map (CastsOwn (campaign r n).0) _ n.peers (λ p t c e. cc));
    saved = stored-plain _ _ (All-map IsPlain _ n.peers (λ p. refl));
    from_self = (tt, All-map (IsFrom n.id) _ n.peers (λ p. refl));
  }

  start_real_election-IsVoteSafe :
      (n : RaftNode) → HasRoom n → IsVoteSafe n (start_real_election r n)
  unfolding start_real_election
  start_real_election-IsVoteSafe n room = ▷-steady (campaign r n) _ (campaign-IsVoteSafe n room) (
      if_cases (IsSteady (campaign r n).0) (is_alone (campaign r n).0) _ _
        (λ _. become_leader-IsSteady (campaign r n).0) (λ _. done-IsSteady (campaign r n).0))

  canvass-IsSteady : (n : RaftNode) → IsSteady n (canvass r n)
  unfolding canvass
  canvass-IsSteady n = record {
    same_id = refl;
    same_peers = refl;
    same_term = refl;
    same_vote = refl;
    plain = All-map IsPlain _ n.peers (λ p. refl);
    from_self = All-map (IsFrom n.id) _ n.peers (λ p. refl);
  }

  start_pre_vote-IsVoteSafe : (n : RaftNode) → HasRoom n → IsVoteSafe n (start_pre_vote r n)
  unfolding start_pre_vote ◌▷◌
  start_pre_vote-IsVoteSafe n room =
      let s = canvass-IsSteady n in
      let m = (canvass r n).0 in
      quiet-▷ (canvass r n) (IsSteady-IsVoteSafe s)
        (All-mono IsPlain CastsNone (canvass r n).1 IsPlain-CastsNone s.plain)
        (if_cases (IsVoteSafe m) (is_alone m) _ _
          (λ _. start_real_election-IsVoteSafe m (rw s.same_term room))
          (λ _. IsSteady-IsVoteSafe (done-IsSteady m)))

  pub handle_pre_vote_response-IsVoteSafe :
      (n : RaftNode) (from : NodeId) (t : Term) (granted : Bool)
      → HasRoom n
      → IsVoteSafe n (handle_pre_vote_response r n from t granted)
  unfolding handle_pre_vote_response
  handle_pre_vote_response-IsVoteSafe n from t granted room =
      let n' = record n { pre_votes_received = set_insert from n.pre_votes_received } in
      let stay = IsSteady-IsVoteSafe (done-IsSteady n) in
      if_cases (IsVoteSafe n) (not (is_pre_candidate n.role) || not (t == n.current_term)) _ _
        (λ _. stay)
        (λ _.
          if_cases (IsVoteSafe n) granted _ _
            (λ _.
              if_cases (IsVoteSafe n) (leb (majority n') (length n'.pre_votes_received)) _ _
                (λ _.
                  IsVoteSafe-of_same n' n (refl, refl, refl, refl)
                    (start_real_election-IsVoteSafe n' room))
                (λ _.
                  IsVoteSafe-of_same n' n (refl, refl, refl, refl)
                    (IsSteady-IsVoteSafe (done-IsSteady n'))))
            (λ _. stay))

  pub handle_append_entries-IsVoteSafe :
      (n : RaftNode) (from : NodeId) (t : Term) (i : LogIndex) (u : Term) (es : List LogEntry)
      (c : LogIndex) {o : Outcome}
      → handle_append_entries r n from t i u es c ≡ some o
      → IsVoteSafe n o
  unfolding handle_append_entries
  handle_append_entries-IsVoteSafe n from t i u es c h = elim (Bool-cases (ltb t n.current_term)) [
    | inl old ↦ subst (IsVoteSafe n) (some_inj (rw old at h)) (IsSteady-IsVoteSafe (ground arith))
    | inr current ↦
        let f = become_follower r t (some from) n in
        let (p, q, e) = map-eq-some _ (check_previous f.0 from i u es c _) (rw current at h) in
        subst (IsVoteSafe n) e (
          quiet-▷ f (become_follower-IsVoteSafe n t (some from) (ground arith))
            (become_follower-quiet n t (some from))
            (IsSteady-IsVoteSafe (check_previous-IsSteady f.0 from i u es c _ q)))
  ]

  pub handle_install_snapshot-IsVoteSafe :
      (n : RaftNode) (from : NodeId) (t : Term) (i : LogIndex) (u : Term) (b : Bytes) (d : Bool)
      → IsVoteSafe n (handle_install_snapshot r n from t i u b d)
  unfolding handle_install_snapshot ◌▷◌
  handle_install_snapshot-IsVoteSafe n from t i u b d =
      let f = become_follower r t (some from) n in
      if_cases (IsVoteSafe n) (ltb t n.current_term) _ _ (λ _. IsSteady-IsVoteSafe (ground arith))
        (λ current.
          quiet-▷ f (become_follower-IsVoteSafe n t (some from) (ground arith))
            (become_follower-quiet n t (some from))
            (IsSteady-IsVoteSafe (take_snapshot-IsSteady from i u b d f.0)))

  pub tick-IsVoteSafe : (n : RaftNode) → HasRoom n → IsVoteSafe n (tick r n)
  unfolding tick
  tick-IsVoteSafe n room =
      if_cases (IsVoteSafe n) (is_leader n.role) _ _
        (λ _.
          if_cases (IsVoteSafe n) (leb n.heartbeat_interval beat.heartbeat_elapsed)
            (reset, broadcast_heartbeats reset) (done beat)
            (λ _.
              IsVoteSafe-of_same reset n (refl, refl, refl, refl)
                (IsSteady-IsVoteSafe (broadcast_heartbeats-IsSteady reset)))
            (λ _.
              IsVoteSafe-of_same beat n (refl, refl, refl, refl)
                (IsSteady-IsVoteSafe (done-IsSteady beat))))
        (λ _.
          if_cases (IsVoteSafe n) (leb n.election_timeout waited.election_elapsed)
            (start_pre_vote r expired) (done waited)
            (λ _.
              IsVoteSafe-of_same expired n (refl, refl, refl, refl)
                (start_pre_vote-IsVoteSafe expired room))
            (λ _.
              IsVoteSafe-of_same waited n (refl, refl, refl, refl)
                (IsSteady-IsVoteSafe (done-IsSteady waited))))
    where
      beat : RaftNode
      beat = record n { heartbeat_elapsed = add64 n.heartbeat_elapsed 1 }

      reset : RaftNode
      reset = record n { heartbeat_elapsed = 0 }

      waited : RaftNode
      waited = record n { election_elapsed = add64 n.election_elapsed 1 }

      expired : RaftNode
      expired = record n { election_elapsed = 0 }
