-- ===== src/Election/Tally.antt =====
-- The votes that a candidate or leader has counted (`votes_received` of raft-core/src/node.rs): each
-- stands for a vote that was cast for it in its term, and a leader has a majority of them.
use raft_rupee.Base.{
  ◌≤◌, ◌≡◌, refl, inl, inr, ◌++◌, Bool, true, false, arith, leb, contains, set_insert, if_cases,
  not, ◌||◌, ◌==◌, length, leb→le,
}
use raft_rupee.Types.{Term, NodeId}
use raft_rupee.Node.State.{Role, RaftNode, Outcome, done, is_leader, is_candidate}
use raft_rupee.Node.Commit.{majority}
use raft_rupee.Node.Election.{become_leader, handle_request_vote_response}
use raft_rupee.Election.Evidence.{HasVote, HasVote-append_left, HasVote-append_right}
use raft_rupee.Election.Kept.{Keeps}
use raft_rupee.Election.Quorum.{Distinct, set_insert-Distinct, contains-set_insert}

-- The roles in which a node counts votes or has counted them.
abbrev pub campaigns : Role → Bool
campaigns Role.candidate = true
campaigns Role.leader = true
campaigns _ = false

-- `P t v`: `v` has voted for this node in term `t`.
pub record IsElected (P : Term → NodeId → Type 0) (n : RaftNode) : Type 0 where
  pub supported :
      (v : NodeId)
      → campaigns n.role ≡ true
      → contains n.votes_received v ≡ true
      → P n.current_term v
  pub distinct : Distinct n.votes_received
  pub quorum : is_leader n.role ≡ true → majority n ≤ length n.votes_received

candidate-not-leader : (r : Role) → is_candidate r ≡ true → is_leader r ≡ true → ⊥
candidate-not-leader Role.leader c l = ground arith
candidate-not-leader _ c l = ground arith

candidate-campaigns : (r : Role) → is_candidate r ≡ true → campaigns r ≡ true
candidate-campaigns Role.candidate c = refl
candidate-campaigns _ c = ground arith

module _ (P : Term → NodeId → Type 0) where
  -- A step keeps the count right if the node's own votes among the actions count.
  abbrev pub Tallies : RaftNode → Outcome → Type 0
  Tallies n o = ((t : Term) → HasVote t n.id o.1 → P t n.id) → IsElected P n → IsElected P o.0

  pub Keeps-IsElected : {n : RaftNode} {o : Outcome} → Keeps n o → IsElected P n → IsElected P o.0
  Keeps-IsElected {n} {o} k v = record {
    supported = λ w c h. rw k.term (v.supported w (rw k.role at c) (rw k.votes at h));
    distinct = rw k.votes v.distinct;
    quorum = λ l. rw (k.peers, k.votes) (v.quorum (rw k.role at l));
  }

  pub Keeps-Tallies : {n : RaftNode} {o : Outcome} → Keeps n o → Tallies n o
  Keeps-Tallies k own = Keeps-IsElected k

  pub idle-IsElected :
      {n : RaftNode} → campaigns n.role ≡ false → Distinct n.votes_received → IsElected P n
  idle-IsElected e d = record { supported = λ w c h. cc; distinct = d; quorum = λ l. ground arith }

  pub ▷-Tallies :
      {n : RaftNode} (o p : Outcome)
      → o.0.id ≡ n.id
      → Tallies n o
      → Tallies o.0 p
      → Tallies n (p.0, o.1 ++ p.1)
  ▷-Tallies {n} o p e a b own v =
      b (λ t h. rw e (own t (HasVote-append_right t n.id o.1 p.1 (rw e at h))))
        (a (λ t h. own t (HasVote-append_left t n.id o.1 p.1 h)) v)

  pub become_leader-IsElected :
      (n : RaftNode)
      → IsElected P n
      → campaigns n.role ≡ true
      → majority n ≤ length n.votes_received
      → IsElected P (become_leader n).0
  unfolding become_leader
  become_leader-IsElected n v c q = record {
    supported = λ w _ h. v.supported w c h;
    distinct = v.distinct;
    quorum = λ _. q;
  }

  -- One more granted vote.
  count_vote-IsElected :
      (n : RaftNode) (from : NodeId)
      → IsElected P n
      → is_candidate n.role ≡ true
      → P n.current_term from
      → IsElected P (record n { votes_received = set_insert from n.votes_received })
  count_vote-IsElected n from v c p = record {
    supported = λ w r h. elim (contains-set_insert from n.votes_received w h) [
      | inl e ↦ rw e p
      | inr old ↦ v.supported w r old
    ];
    distinct = set_insert-Distinct from n.votes_received v.distinct;
    quorum = λ l. absurd (candidate-not-leader n.role c l);
  }

  pub handle_request_vote_response-Tallies :
      (n : RaftNode) (from : NodeId) (t : Term) (granted : Bool)
      → (granted ≡ true → P t from)
      → Tallies n (handle_request_vote_response n from t granted)
  unfolding handle_request_vote_response
  handle_request_vote_response-Tallies n from t granted g own v =
      let n' = record n { votes_received = set_insert from n.votes_received } in
      if_cases {A = Outcome} (λ o. IsElected P o.0)
        (not (is_candidate n.role) || not (t == n.current_term)) _ _ (λ _. v)
        (λ open_vote.
          if_cases {A = Outcome} (λ o. IsElected P o.0) granted _ _
            (λ yea.
              let e : t ≡ n.current_term = ground arith in
              let c : is_candidate n.role ≡ true = ground arith in
              let w = count_vote-IsElected n from v c (rw e at (g yea)) in
              if_cases {A = Outcome} (λ o. IsElected P o.0)
                (leb (majority n') (length n'.votes_received)) _ _
                (λ q. become_leader-IsElected n' w (candidate-campaigns n.role c) (leb→le _ _ q))
                (λ _. w))
            (λ _. v))

  pub IsElected_of_same :
      (m n : RaftNode)
      → (m.role ≡ n.role)
        × (m.current_term ≡ n.current_term)
        × (m.votes_received ≡ n.votes_received)
        × (m.peers ≡ n.peers)
      → IsElected P n
      → IsElected P m
  IsElected_of_same m n e v =
      let k : Keeps n (done m) = record { role = e.0; term = e.1; votes = e.2; peers = e.3 } in
      Keeps-IsElected k v
