-- ===== src/Cluster/Invariant.antt =====
-- What holds of every member in every reachable cluster of nodes of raft-core/src/node.rs: its
-- votes are unique, its hard state is stored, and the votes that it has counted were cast.
use raft_rupee.Base.{
  ℕ, ◌+◌, ◌≤◌, ◌≡◌, sym, ap, ◌∙◌, inl, inr, List, ◌++◌, none, some, true, arith, length, contains,
  ◌==◌, ==_iff, Bool-cases, subst, All, All-append, some_inj, if_cases, ==_refl,
}
use raft_rupee.Types.{Term, NodeId, zero_term}
use raft_rupee.Node.State.{RaftNode, Action, Outcome}
use raft_rupee.Election.Evidence.{
  HasVote, HasVote-append_left, HasVote-append_right, HasVote-append_cases, HasVote-CastsOwn,
  IsFrom, stored, stored-append, hard_state,
}
use raft_rupee.Election.Voting.{IsVoteSafe}
use raft_rupee.Election.Tally.{IsElected, Tallies}
use raft_rupee.Cluster.System.{Cluster, after}

-- `P t v` says that `v` has voted for the node in question in term `t`.
abbrev pub Support : Type 1
Support = Term → NodeId → Type 0

-- Every vote among the actions is of a term reached, and one of the present term is still held.
abbrev pub IsCurrent : List Action → RaftNode → Type 0
IsCurrent xs n =
    (t : Term) (c : NodeId)
    → HasVote t c xs
    → (t ≤ n.current_term) × (t ≡ n.current_term → n.voted_for ≡ some c)

-- No two votes of one term are for different nodes.
abbrev pub IsUnique : List Action → Type 0
IsUnique xs = (t : Term) (a b : NodeId) → HasVote t a xs → HasVote t b xs → a ≡ b

-- What holds of member `i` after its actions `xs`, in a cluster of `size` members.
pub record IsMember (size : ℕ) (i : NodeId) (xs : List Action) (P : Support) (n : RaftNode)
    : Type 0 where
  pub id : n.id ≡ i
  pub peers : length n.peers + 1 ≡ size
  pub current : IsCurrent xs n
  pub unique : IsUnique xs
  pub stamped : All (IsFrom i) xs
  pub saved : stored (zero_term, none) xs ≡ hard_state n
  pub elected : IsElected P n

module _ (xs : List Action) (n : RaftNode) (o : Outcome) (v : IsVoteSafe n o)
    (m : IsCurrent xs n) where
  IsCurrent-move : IsCurrent (xs ++ o.1) o.0
  IsCurrent-move = λ t c h. elim (HasVote-append_cases t c xs o.1 h) [
    | inl old ↦
        let q = m t c old in
        (
          omega (arith, q.0, v.terms),
          λ e.
              let same : o.0.current_term ≡ n.current_term = omega (arith, q.0, v.terms) in
              v.kept c same (q.1 (e ∙ same)),
        )
    | inr fresh ↦
        let p = HasVote-CastsOwn o.0 t c o.1 v.votes fresh in (omega (arith, p.0), λ _. p.1)
  ]

  IsUnique-move : IsUnique xs → IsUnique (xs ++ o.1)
  IsUnique-move u = λ t a b ha hb.
      let held : (c : NodeId)
          → HasVote t c (xs ++ o.1)
          → t ≡ o.0.current_term
          → o.0.voted_for ≡ some c =
        λ c h e. (IsCurrent-move t c h).1 e in
      let meet : t ≡ o.0.current_term → a ≡ b = λ e. some_inj (sym (held a ha e) ∙ held b hb e) in
      elim (HasVote-append_cases t a xs o.1 ha) [
        | inl old_a ↦ elim (HasVote-append_cases t b xs o.1 hb) [
          | inl old_b ↦ u t a b old_a old_b
          | inr new_b ↦ meet (HasVote-CastsOwn o.0 t b o.1 v.votes new_b).0
        ]
        | inr new_a ↦ meet (HasVote-CastsOwn o.0 t a o.1 v.votes new_a).0
      ]

-- A move of the node itself.
IsMember-move :
    {size : ℕ} {i : NodeId} {xs : List Action} {P Q : Support} {n : RaftNode} (o : Outcome)
    → IsMember size i xs P n
    → IsVoteSafe n o
    → IsElected Q o.0
    → IsMember size i (xs ++ o.1) Q o.0
IsMember-move {i} {xs} {n} o m v e = record {
  id = v.same_id ∙ m.id;
  peers = rw v.same_peers m.peers;
  current = IsCurrent-move xs n o v m.current;
  unique = IsUnique-move xs n o v m.current m.unique;
  stamped = All-append (IsFrom i) xs o.1 m.stamped (rw m.id at v.from_self);
  saved = stored-append (zero_term, none) xs o.1 ∙ ap (λ s. stored s o.1) m.saved ∙ v.saved;
  elected = e;
}

IsElected_mono :
    (P Q : Support) (n : RaftNode)
    → ((t : Term) (v : NodeId) → P t v → Q t v)
    → IsElected P n
    → IsElected Q n
IsElected_mono P Q n f e = record {
  supported = λ v c h. f n.current_term v (e.supported v c h);
  distinct = e.distinct;
  quorum = e.quorum;
}

-- The votes for `i` that the members have cast.
abbrev pub VotesFor : List NodeId → (NodeId → List Action) → NodeId → Support
VotesFor members sent i t v = HasVote t i (sent v) × (contains members v ≡ true)

abbrev pub Invariant : List NodeId → Cluster → Type 0
Invariant members c =
    (i : NodeId)
    → contains members i ≡ true
    → IsMember (length members) i (c.sent i) (VotesFor members c.sent i) (c.node i)

-- Votes stay cast.
pub VotesFor-after :
    (members : List NodeId) (c : Cluster) (i : NodeId) (o : Outcome) (j : NodeId) (t : Term)
    (v : NodeId)
    → VotesFor members c.sent j t v
    → VotesFor members (after c i o).sent j t v
VotesFor-after members c i o j t v (h, m) = (
  if_cases (HasVote t j) (i == v) _ _
      (λ e. HasVote-append_left t j (c.sent i) o.1 (rw ((==_iff i v).0 e) h)) (λ _. h),
  m,
)

module _ (members : List NodeId) (c : Cluster) (i : NodeId) (o : Outcome) where
  own_vote :
      (n : RaftNode)
      → n.id ≡ i
      → contains members i ≡ true
      → (t : Term) → HasVote t n.id o.1
      → VotesFor members (after c i o).sent i t n.id
  own_vote n e here t h =
      rw (e, ==_refl i) (HasVote-append_right t i (c.sent i) o.1 (rw e at h), here)

  -- One member has moved, the others see more actions.
  pub after-Invariant :
      Invariant members c
      → contains members i ≡ true
      → IsVoteSafe (c.node i) o
      → Tallies (VotesFor members (after c i o).sent i) (c.node i) o
      → Invariant members (after c i o)
  after-Invariant inv here v tally j there = elim (Bool-cases (i == j)) [
    | inl e ↦ subst At ((==_iff i j).0 e) moved
    | inr e ↦ rw e stayed
  ]
    where
      At : NodeId → Type 0
      At k =
          IsMember (length members) k ((after c i o).sent k) (VotesFor members (after c i o).sent k)
            ((after c i o).node k)

      m : IsMember (length members) i (c.sent i) (VotesFor members c.sent i) (c.node i)
      m = inv i here

      elected : IsElected (VotesFor members (after c i o).sent i) o.0
      elected = tally (own_vote (c.node i) m.id here) (
          IsElected_mono (VotesFor members c.sent i) (VotesFor members (after c i o).sent i)
            (c.node i) (VotesFor-after members c i o i) m.elected)

      moved : At i
      moved = rw (==_refl i) (IsMember-move o m v elected)

      k : IsMember (length members) j (c.sent j) (VotesFor members c.sent j) (c.node j)
      k = inv j there

      stayed :
          IsMember (length members) j (c.sent j) (VotesFor members (after c i o).sent j) (c.node j)
      stayed = record {
        id = k.id;
        peers = k.peers;
        current = k.current;
        unique = k.unique;
        stamped = k.stamped;
        saved = k.saved;
        elected =
            IsElected_mono (VotesFor members c.sent j) (VotesFor members (after c i o).sent j)
              (c.node j) (VotesFor-after members c i o j) k.elected;
      }
