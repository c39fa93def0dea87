-- ===== src/Election/TallySteps.antt =====
-- The votes that a node of raft-core/src/node.rs has counted, when it campaigns, follows or hears its
-- clock.
use raft_rupee.Base.{
  ◌≡◌, refl, inl, inr, List, Option, some, Bool, arith, Bool-cases, ltb, leb, contains, set_insert,
  if_cases, map-eq-some, some_inj, subst, not, ◌||◌, ◌==◌, length, add64,
}
use raft_rupee.Types.{Term, NodeId, LogIndex, next_term}
use raft_rupee.Message.{LogEntry, Bytes}
use raft_rupee.Node.State.{RaftNode, Rng, Outcome, ◌▷◌, done, is_leader, is_pre_candidate}
use raft_rupee.Node.Replicate.{broadcast_heartbeats}
use raft_rupee.Node.Commit.{majority}
use raft_rupee.Node.Election.{
  is_alone, become_follower, campaign, canvass, start_pre_vote, start_real_election,
  handle_pre_vote_response,
}
use raft_rupee.Node.Entries.{check_previous, handle_append_entries}
use raft_rupee.Node.Snapshot.{handle_install_snapshot}
use raft_rupee.Node.Step.{tick}
use raft_rupee.Election.Kept.{done-Keeps, check_previous-Keeps, take_snapshot-Keeps}
use raft_rupee.Election.Tally.{
  IsElected, Tallies, Keeps-IsElected, Keeps-Tallies, idle-IsElected, ▷-Tallies,
  become_leader-IsElected, IsElected_of_same,
}

module _ (P : Term → NodeId → Type 0) (r : Rng) where
  pub become_follower-IsElected :
      (n : RaftNode) (t : Term) (leader : Option NodeId)
      → IsElected P n
      → IsElected P (become_follower r t leader n).0
  unfolding become_follower
  become_follower-IsElected n t leader v = idle-IsElected P (ground arith) (ground arith)

  pub become_follower-id :
      (n : RaftNode) (t : Term) (leader : Option NodeId)
      → (become_follower r t leader n).0.id ≡ n.id
  unfolding become_follower
  become_follower-id n t leader = ground arith

  start_real_election-Tallies : (n : RaftNode) → Tallies P n (start_real_election r n)
  unfolding start_real_election campaign ◌▷◌ contains
  start_real_election-Tallies n own v =
      let m = (campaign r n).0 in
      let started : IsElected P m = record {
        supported = λ w c h.
            let e : w ≡ n.id = ground arith in rw e (own (next_term n.current_term) (inl refl));
        distinct = (refl, tt);
        quorum = λ l. ground arith;
      } in
      if_cases {A = Outcome} (λ o. IsElected P o.0) (is_alone m) _ _
        (λ alone. become_leader-IsElected P m started refl (ground arith)) (λ _. started)

  canvass-id : (n : RaftNode) → (canvass r n).0.id ≡ n.id
  unfolding canvass
  canvass-id n = refl

  canvass-Tallies : (n : RaftNode) → Tallies P n (canvass r n)
  unfolding canvass
  canvass-Tallies n own v = idle-IsElected P refl v.distinct

  start_pre_vote-Tallies : (n : RaftNode) → Tallies P n (start_pre_vote r n)
  unfolding start_pre_vote ◌▷◌
  start_pre_vote-Tallies n =
      let m = (canvass r n).0 in
      ▷-Tallies P (canvass r n) _ (canvass-id n) (canvass-Tallies n) (
        if_cases (Tallies P m) (is_alone m) _ _ (λ _. start_real_election-Tallies m)
          (λ _. Keeps-Tallies P (done-Keeps m)))

  pub handle_pre_vote_response-Tallies :
      (n : RaftNode) (from : NodeId) (t : Term) (granted : Bool)
      → Tallies P n (handle_pre_vote_response r n from t granted)
  unfolding handle_pre_vote_response
  handle_pre_vote_response-Tallies n from t granted =
      let n' = record n { pre_votes_received = set_insert from n.pre_votes_received } in
      let seen : IsElected P n → IsElected P n' =
        IsElected_of_same P n' n (refl, refl, refl, refl) in
      if_cases (Tallies P n) (not (is_pre_candidate n.role) || not (t == n.current_term)) _ _
        (λ _ own v. v)
        (λ _.
          if_cases (Tallies P n) granted _ _
            (λ _.
              if_cases (Tallies P n) (leb (majority n') (length n'.pre_votes_received)) _ _
                (λ _ own v. start_real_election-Tallies n' own (seen v)) (λ _ own v. seen v))
            (λ _ own v. v))

  pub handle_append_entries-Tallies :
      (n : RaftNode) (from : NodeId) (t : Term) (i : LogIndex) (u : Term) (es : List LogEntry)
      (c : LogIndex) (o : Outcome)
      → handle_append_entries r n from t i u es c ≡ some o
      → Tallies P n o
  unfolding handle_append_entries
  handle_append_entries-Tallies n from t i u es c o h own v =
      let f = become_follower r t (some from) n in
      elim (Bool-cases (ltb t n.current_term)) [
        | inl old ↦ subst (λ (x : Outcome). IsElected P x.0) (some_inj (rw old at h)) v
        | inr current ↦
            let (p, q, e) = map-eq-some _ (check_previous f.0 from i u es c _) (rw current at h) in
            subst (λ (x : Outcome). IsElected P x.0) e
              (Keeps-IsElected P (check_previous-Keeps f.0 from i u es c _ q)
                (become_follower-IsElected n t (some from) v))
      ]

  pub handle_install_snapshot-Tallies :
      (n : RaftNode) (from : NodeId) (t : Term) (i : LogIndex) (u : Term) (b : Bytes) (d : Bool)
      → Tallies P n (handle_install_snapshot r n from t i u b d)
  unfolding handle_install_snapshot ◌▷◌
  handle_install_snapshot-Tallies n from t i u b d own v =
      let f = become_follower r t (some from) n in
      if_cases {A = Outcome} (λ o. IsElected P o.0) (ltb t n.current_term) _ _ (λ _. v)
        (λ _.
          Keeps-IsElected P (take_snapshot-Keeps from i u b d f.0)
            (become_follower-IsElected n t (some from) v))

  pub tick-Tallies : (n : RaftNode) → Tallies P n (tick r n)
  unfolding tick
  tick-Tallies n =
      if_cases (Tallies P n) (is_leader n.role) _ _
        (λ _.
          if_cases (Tallies P n) (leb n.heartbeat_interval beat.heartbeat_elapsed)
            (reset, broadcast_heartbeats reset) (done beat)
            (λ _ own. IsElected_of_same P reset n (refl, refl, refl, refl))
            (λ _ own. IsElected_of_same P beat n (refl, refl, refl, refl)))
        (λ _.
          if_cases (Tallies P n) (leb n.election_timeout waited.election_elapsed)
            (start_pre_vote r expired) (done waited)
            (λ _ own v.
              start_pre_vote-Tallies expired own
                (IsElected_of_same P expired n (refl, refl, refl, refl) v))
            (λ _ own. IsElected_of_same P waited n (refl, refl, refl, refl)))
    where
      beat : RaftNode
      beat = record n { heartbeat_elapsed = add64 n.heartbeat_elapsed 1 }

      reset : RaftNode
      reset = record n { heartbeat_elapsed = 0 }

      waited : RaftNode
      waited = record n { election_elapsed = add64 n.election_elapsed 1 }

      expired : RaftNode
      expired = record n { election_elapsed = 0 }
