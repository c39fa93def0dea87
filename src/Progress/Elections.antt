-- ===== src/Progress/Elections.antt =====
-- The election handlers of raft-core/src/node.rs, and the soundness of a node.
use raft_rupee.Base.{
  suc, ◌+◌, ◌<◌, ◌≡◌, ◌∙◌, refl, [], ◌∷◌, Option, Bool, arith, u64_mod, All-map, if_cases, leb, ltb,
  not, ◌||◌, ◌&&◌, ◌==◌, length, set_insert,
}
use raft_rupee.Types.{LogIndex, Term, NodeId, next, next_of_lt}
use raft_rupee.Message.{LogEntry}
use raft_rupee.Log.{RaftLog, last_index, append}
use raft_rupee.Log.Bounds.{IsLog}
use raft_rupee.Log.Edits.{append-IsLog}
use raft_rupee.Node.State.{RaftNode, Rng, Outcome, is_candidate, is_pre_candidate}
use raft_rupee.Node.Commit.{majority}
use raft_rupee.Node.Election.{
  become_leader, is_alone, handle_pre_vote, handle_request_vote, handle_request_vote_response,
  can_vote, is_log_up_to_date, leader_lease_active, become_follower, campaign, start_real_election,
  canvass, start_pre_vote, handle_pre_vote_response,
}
use raft_rupee.Progress.Sound.{
  IsSound, HasLogRoom, Progresses, IsSoundAction, done-Progresses, push-Progresses, ▷-Progresses,
  Progresses-of_same, broadcast-Progresses,
}

-- One entry goes to the end of the log.
pub append_one-IsLog :
    {l : RaftLog} (e : LogEntry)
    → IsLog l
    → last_index l + 2 < u64_mod
    → e.index ≡ next (last_index l)
    → IsLog (append l (e ∷ []))
append_one-IsLog {l} e v room at =
    let q : last_index l + 1 ≡ suc (last_index l) = omega arith in
    append-IsLog (e ∷ []) v (at ∙ next_of_lt (last_index l) (omega arith) ∙ q, tt) (omega arith)

pub become_leader-Progresses :
    (n : RaftNode) → IsSound n → HasLogRoom n → Progresses n (become_leader n)
unfolding become_leader
become_leader-Progresses n s room =
    let p =
      broadcast-Progresses (become_leader n).0
        (record { log = append_one-IsLog _ s.log room refl; applied = s.applied; fits = s.fits }) in
    record { sound = p.sound; commit = omega arith; applied = omega arith; sends = (tt, p.sends) }

pub handle_pre_vote-Progresses :
    (n : RaftNode) (from : NodeId) (t : Term) (i : LogIndex) (u : Term)
    → IsSound n
    → Progresses n (handle_pre_vote n from t i u)
unfolding handle_pre_vote
handle_pre_vote-Progresses n from t i u s = push-Progresses n _ s tt

pub handle_request_vote-Progresses :
    (n : RaftNode) (from : NodeId) (i : LogIndex) (t : Term)
    → IsSound n
    → Progresses n (handle_request_vote n from i t)
unfolding handle_request_vote
handle_request_vote-Progresses n from i t s =
    if_cases {A = Outcome} (Progresses n)
      (can_vote n from && (is_log_up_to_date n i t && not (leader_lease_active n))) _ _
      (λ _. record {
        sound = record { log = s.log; applied = s.applied; fits = s.fits };
        commit = omega arith;
        applied = omega arith;
        sends = (tt, (tt, tt));
      })
      (λ _. push-Progresses n _ s tt)

pub handle_request_vote_response-Progresses :
    (n : RaftNode) (from : NodeId) (t : Term) (granted : Bool)
    → IsSound n
    → HasLogRoom n
    → Progresses n (handle_request_vote_response n from t granted)
unfolding handle_request_vote_response
handle_request_vote_response-Progresses n from t granted s room =
    let n' = record n { votes_received = set_insert from n.votes_received } in
    let s' : IsSound n' = record { log = s.log; applied = s.applied; fits = s.fits } in
    if_cases (Progresses n) (not (is_candidate n.role) || not (t == n.current_term)) _ _
      (λ _. done-Progresses n s)
      (λ _.
        if_cases (Progresses n) granted _ _
          (λ _.
            if_cases (Progresses n) (leb (majority n') (length n'.votes_received)) _ _
              (λ _. Progresses-of_same n' n (refl, refl) (become_leader-Progresses n' s' room))
              (λ _. Progresses-of_same n' n (refl, refl) (done-Progresses n' s')))
          (λ _. done-Progresses n s))

module _ (r : Rng) where
  pub become_follower-Progresses :
      (t : Term) (leader : Option NodeId) (n : RaftNode)
      → IsSound n
      → Progresses n (become_follower r t leader n)
  unfolding become_follower
  become_follower-Progresses t leader n s =
      if_cases {A = Outcome} (Progresses n) (ltb n.current_term t) _ _
        (λ _. record {
          sound = record { log = s.log; applied = s.applied; fits = s.fits };
          commit = omega arith;
          applied = omega arith;
          sends = (tt, tt);
        })
        (λ _. record {
          sound = record { log = s.log; applied = s.applied; fits = s.fits };
          commit = omega arith;
          applied = omega arith;
          sends = tt;
        })

  pub become_follower-log :
      (t : Term) (leader : Option NodeId) (n : RaftNode)
      → (become_follower r t leader n).0.log ≡ n.log
  unfolding become_follower
  become_follower-log t leader n =
      if_cases {A = Outcome} (λ o. o.0.log ≡ n.log) (ltb n.current_term t) _ _ (λ _. refl)
        (λ _. refl)

  start_real_election-Progresses :
      (n : RaftNode) → IsSound n → HasLogRoom n → Progresses n (start_real_election r n)
  unfolding start_real_election campaign
  start_real_election-Progresses n s room =
      ▷-Progresses (campaign r n) _
        (record {
          sound = record { log = s.log; applied = s.applied; fits = s.fits };
          commit = omega arith;
          applied = omega arith;
          sends = (tt, All-map IsSoundAction _ n.peers (λ _. tt));
        })
        (λ s'.
          if_cases (Progresses (campaign r n).0) (is_alone (campaign r n).0) _ _
            (λ _. become_leader-Progresses (campaign r n).0 s' room)
            (λ _. done-Progresses (campaign r n).0 s'))

  pub start_pre_vote-Progresses :
      (n : RaftNode) → IsSound n → HasLogRoom n → Progresses n (start_pre_vote r n)
  unfolding start_pre_vote canvass
  start_pre_vote-Progresses n s room =
      ▷-Progresses (canvass r n) _
        (record {
          sound = record { log = s.log; applied = s.applied; fits = s.fits };
          commit = omega arith;
          applied = omega arith;
          sends = All-map IsSoundAction _ n.peers (λ _. tt);
        })
        (λ s'.
          if_cases (Progresses (canvass r n).0) (is_alone (canvass r n).0) _ _
            (λ _. start_real_election-Progresses (canvass r n).0 s' room)
            (λ _. done-Progresses (canvass r n).0 s'))

  pub handle_pre_vote_response-Progresses :
      (n : RaftNode) (from : NodeId) (t : Term) (granted : Bool)
      → IsSound n
      → HasLogRoom n
      → Progresses n (handle_pre_vote_response r n from t granted)
  unfolding handle_pre_vote_response
  handle_pre_vote_response-Progresses n from t granted s room =
      let n' = record n { pre_votes_received = set_insert from n.pre_votes_received } in
      let s' : IsSound n' = record { log = s.log; applied = s.applied; fits = s.fits } in
      if_cases (Progresses n) (not (is_pre_candidate n.role) || not (t == n.current_term)) _ _
        (λ _. done-Progresses n s)
        (λ _.
          if_cases (Progresses n) granted _ _
            (λ _.
              if_cases (Progresses n) (leb (majority n') (length n'.pre_votes_received)) _ _
                (λ _.
                  Progresses-of_same n' n (refl, refl) (start_real_election-Progresses n' s' room))
                (λ _. Progresses-of_same n' n (refl, refl) (done-Progresses n' s')))
            (λ _. done-Progresses n s))
