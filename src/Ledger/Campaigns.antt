-- ===== src/Ledger/Campaigns.antt =====
-- The campaigns of raft-core/src/node.rs, and the entries that they create.
use raft_rupee.Base.{
  ◌≤◌, ◌<◌, ◌≡◌, refl, inl, inr, [], Option, Bool, arith, All, All-map, if_cases, leb, ltb, true,
  not, ◌||◌, ◌==◌, length, set_insert, if◌then◌else◌,
}
use raft_rupee.Types.{Term, NodeId, next_term_of_lt}
use raft_rupee.Node.State.{
  RaftNode, Rng, Role, Outcome, is_candidate, is_leader, is_pre_candidate, done, ◌▷◌,
}
use raft_rupee.Node.Commit.{majority}
use raft_rupee.Node.Election.{
  become_leader, is_alone, become_follower, campaign, start_real_election, canvass, start_pre_vote,
  handle_pre_vote_response,
}
use raft_rupee.Election.VoteSteps.{become_follower-term}
use raft_rupee.Election.Voting.{HasRoom}
use raft_rupee.Replication.Leader.{become_follower-role}
use raft_rupee.Progress.Elections.{become_follower-log}
use raft_rupee.Ledger.Chain.{Ledger}
use raft_rupee.Ledger.Lawful.{
  enters, enters-map, LinkedAction, Lawful, done-Lawful, follower-Lawful, Lawful-of_same,
}
use raft_rupee.Ledger.Sends.{then-Lawful}
use raft_rupee.Ledger.Elections.{become_leader-Lawful, become_follower-enters}

module _ (k : Ledger) (r : Rng) where
  become_follower-LinkedAction :
      (t : Term) (leader : Option NodeId) (n : RaftNode)
      → All (LinkedAction k) (become_follower r t leader n).1
  unfolding become_follower
  become_follower-LinkedAction t leader n =
      if_cases {A = Outcome} (λ o. All (LinkedAction k) o.1) (ltb n.current_term t) _ _
        (λ _. (tt, tt)) (λ _. tt)

  -- To a term that is not below its own.
  pub become_follower-Lawful :
      (t : Term) (leader : Option NodeId) (n : RaftNode)
      → n.current_term ≤ t
      → Lawful k n (become_follower r t leader n)
  become_follower-Lawful t leader n le =
      follower-Lawful k (become_follower-role r t leader n)
        (omega (arith, le, become_follower-term r n t leader))
        (become_follower-enters k r t leader n)
        (λ h. (rw (become_follower-log r t leader n) h, become_follower-LinkedAction t leader n))

  campaign-enters : (n : RaftNode) → enters (campaign r n).1 ≡ []
  unfolding campaign
  campaign-enters n = enters-map _ n.peers (λ _. refl)

  campaign-Lawful : (n : RaftNode) → HasRoom n → Lawful k n (campaign r n)
  campaign-Lawful n room =
      let lt : n.current_term < (campaign r n).0.current_term =
        unfold campaign in omega (arith, next_term_of_lt n.current_term room) in
      record {
        chain = λ _ h. unfold campaign in h;
        sends = λ _ _. unfold campaign in (tt, All-map (LinkedAction k) _ n.peers (λ _. tt));
        entered = inl (campaign-enters n);
        terms = omega (arith, lt);
        leads = λ l. inr (inl lt);
        runs = λ _. inl lt;
      }

  start_real_election-Lawful : (n : RaftNode) → HasRoom n → Lawful k n (start_real_election r n)
  unfolding start_real_election ◌▷◌
  start_real_election-Lawful n room =
      let m = (campaign r n).0 in
      let next : RaftNode → Outcome = λ m. if is_alone m then become_leader m else done m in
      let rest : Lawful k m (next m) =
        if_cases {A = Outcome} (Lawful k m) (is_alone m) _ _
          (λ _. become_leader-Lawful k m (unfold campaign in refl)) (λ _. done-Lawful k m) in
      then-Lawful k (campaign r n) (next m) (campaign-Lawful n room) rest (campaign-enters n)
        (unfold campaign in refl)

  canvass-enters : (n : RaftNode) → enters (canvass r n).1 ≡ []
  unfolding canvass
  canvass-enters n = enters-map _ n.peers (λ _. refl)

  canvass-Lawful : (n : RaftNode) → Lawful k n (canvass r n)
  unfolding canvass
  canvass-Lawful n = record {
    chain = λ _ h. h;
    sends = λ _ _. All-map (LinkedAction k) _ n.peers (λ _. tt);
    entered = inl (canvass-enters n);
    terms = omega arith;
    leads = λ l. let no : is_leader Role.pre_candidate ≡ true = l in cc;
    runs = λ l. let no : is_candidate Role.pre_candidate ≡ true = l in cc;
  }

  pub start_pre_vote-Lawful : (n : RaftNode) → HasRoom n → Lawful k n (start_pre_vote r n)
  unfolding start_pre_vote ◌▷◌
  start_pre_vote-Lawful n room =
      let m = (canvass r n).0 in
      let next : RaftNode → Outcome = λ m. if is_alone m then start_real_election r m else done m in
      let rest : Lawful k m (next m) =
        if_cases {A = Outcome} (Lawful k m) (is_alone m) _ _
          (λ _. start_real_election-Lawful m (unfold canvass in room)) (λ _. done-Lawful k m) in
      then-Lawful k (canvass r n) (next m) (canvass-Lawful n) rest (canvass-enters n)
        (unfold canvass in refl)

  pub handle_pre_vote_response-Lawful :
      (n : RaftNode) (from : NodeId) (t : Term) (granted : Bool)
      → HasRoom n
      → Lawful k n (handle_pre_vote_response r n from t granted)
  unfolding handle_pre_vote_response
  handle_pre_vote_response-Lawful n from t granted room =
      let n' = record n { pre_votes_received = set_insert from n.pre_votes_received } in
      if_cases (Lawful k n) (not (is_pre_candidate n.role) || not (t == n.current_term)) _ _
        (λ _. done-Lawful k n)
        (λ _.
          if_cases (Lawful k n) granted _ _
            (λ _.
              if_cases (Lawful k n) (leb (majority n') (length n'.pre_votes_received)) _ _
                (λ _. Lawful-of_same k n' n (refl, refl, refl) (start_real_election-Lawful n' room))
                (λ _. Lawful-of_same k n' n (refl, refl, refl) (done-Lawful k n')))
            (λ _. done-Lawful k n))
