-- ===== src/Ledger/Elections.antt =====
-- The election handlers of raft-core/src/node.rs, and the entries that they create.
use raft_rupee.Base.{
  ◌≡◌, refl, ap, subst, inr, List, [], ◌∷◌, ◌++◌, Option, Bool, arith, if_cases, leb, ltb, true,
  last_of, not, ◌||◌, ◌&&◌, ◌==◌, length, set_insert,
}
use raft_rupee.Types.{LogIndex, Term, NodeId, next}
use raft_rupee.Message.{LogEntry}
use raft_rupee.Log.{RaftLog, last_index, last_term, append}
use raft_rupee.Node.State.{RaftNode, Rng, Outcome, is_candidate}
use raft_rupee.Node.Replicate.{broadcast_heartbeats}
use raft_rupee.Node.Commit.{majority}
use raft_rupee.Node.Election.{
  become_leader, handle_pre_vote, handle_request_vote, handle_request_vote_response, can_vote,
  is_log_up_to_date, leader_lease_active, become_follower,
}
use raft_rupee.Ledger.Chain.{Ledger, Chain}
use raft_rupee.Ledger.Edits.{append-LogChain}
use raft_rupee.Ledger.Lawful.{enters, Lawful, Calm-Lawful, done-Lawful, Lawful-of_same}
use raft_rupee.Ledger.Sends.{broadcast-enters, broadcast-LinkedAction, push-Lawful}

last_of-append : (x : LogEntry) (xs : List LogEntry) (e : LogEntry) → last_of x (xs ++ e ∷ []) ≡ e
last_of-append x [] e = refl
last_of-append x (y ∷ ys) e = last_of-append y ys e

pub append_one-last_index : (l : RaftLog) (e : LogEntry) → last_index (append l (e ∷ [])) ≡ e.index
unfolding append last_index
append_one-last_index l e = ap (λ (x : LogEntry). x.index) (last_of-append l.sentinel l.rest e)

module _ (k : Ledger) where
  pub become_leader-Lawful :
      (n : RaftNode) → is_candidate n.role ≡ true → Lawful k n (become_leader n)
  unfolding become_leader broadcast_heartbeats
  become_leader-Lawful n c =
      let last = last_index n.log in
      let noop : LogEntry = record { index = next last; term = n.current_term; command = [] } in
      let m = (become_leader n).0 in
      let only : (noop ∷ []) ++ enters (broadcast_heartbeats m) ≡ noop ∷ [] =
        ap (λ es. noop ∷ es) (broadcast-enters m) in
      record {
        chain = λ made h.
            append-LogChain k n.log (noop ∷ []) h (subst (Chain k (last_term n.log)) only made);
        sends = λ made h. (
          tt,
          broadcast-LinkedAction k m
              (append-LogChain k n.log (noop ∷ []) h (subst (Chain k (last_term n.log)) only made)),
        );
        entered = inr (record {
          entry = noop;
          only = only;
          index = refl;
          term = refl;
          leads = refl;
          last = append_one-last_index n.log noop;
        });
        terms = omega arith;
        leads = λ _. inr (inr (c, refl));
        runs = λ x. cc;
      }

  pub handle_pre_vote-Lawful :
      (n : RaftNode) (from : NodeId) (t : Term) (i : LogIndex) (u : Term)
      → Lawful k n (handle_pre_vote n from t i u)
  unfolding handle_pre_vote
  handle_pre_vote-Lawful n from t i u = push-Lawful k n _ refl (λ _. tt)

  pub handle_request_vote-Lawful :
      (n : RaftNode) (from : NodeId) (i : LogIndex) (t : Term)
      → Lawful k n (handle_request_vote n from i t)
  unfolding handle_request_vote
  handle_request_vote-Lawful n from i t =
      if_cases {A = Outcome} (Lawful k n)
        (can_vote n from && (is_log_up_to_date n i t && not (leader_lease_active n))) _ _
        (λ _.
          Calm-Lawful k (record { silent = refl; role = refl; term = refl; log = refl })
            (λ _. (tt, (tt, tt))))
        (λ _. push-Lawful k n _ refl (λ _. tt))

  pub handle_request_vote_response-Lawful :
      (n : RaftNode) (from : NodeId) (t : Term) (granted : Bool)
      → Lawful k n (handle_request_vote_response n from t granted)
  unfolding handle_request_vote_response
  handle_request_vote_response-Lawful n from t granted =
      let n' = record n { votes_received = set_insert from n.votes_received } in
      if_cases (Lawful k n) (not (is_candidate n.role) || not (t == n.current_term)) _ _
        (λ _. done-Lawful k n)
        (λ open_vote.
          let c : is_candidate n.role ≡ true = ground arith in
          if_cases (Lawful k n) granted _ _
            (λ _.
              if_cases (Lawful k n) (leb (majority n') (length n'.votes_received)) _ _
                (λ _. Lawful-of_same k n' n (refl, refl, refl) (become_leader-Lawful n' c))
                (λ _. Lawful-of_same k n' n (refl, refl, refl) (done-Lawful k n')))
            (λ _. done-Lawful k n))

  module _ (r : Rng) where
    pub become_follower-enters :
        (t : Term) (leader : Option NodeId) (n : RaftNode)
        → enters (become_follower r t leader n).1 ≡ []
    unfolding become_follower
    become_follower-enters t leader n =
        if_cases {A = Outcome} (λ o. enters o.1 ≡ []) (ltb n.current_term t) _ _ (λ _. refl)
          (λ _. refl)
