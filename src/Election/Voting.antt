-- ===== src/Election/Voting.antt =====
-- What a move of a node of raft-core/src/node.rs may do to its term and its vote, and the handler of
-- RequestVote.
use raft_rupee.Base.{
  ◌+◌, ◌≤◌, ◌<◌, ◌≡◌, ap, sym, ◌∙◌, ◌++◌, some, arith, All, All-append, All-mono, u64_mod,
}
use raft_rupee.Types.{Term, NodeId, LogIndex}
use raft_rupee.Node.State.{RaftNode, Action, Outcome, ◌▷◌}
use raft_rupee.Node.Election.{handle_request_vote, can_vote}
use raft_rupee.Election.Evidence.{
  IsFrom, IsPlain, CastsNone, CastsOwn, hard_state, stored, stored-append, stored-plain,
  IsPlain-CastsNone, CastsNone-CastsOwn,
}
use raft_rupee.Election.Steady.{IsSteady}

pub record IsVoteSafe (n : RaftNode) (o : Outcome) : Type 0 where
  pub same_id : o.0.id ≡ n.id
  pub same_peers : o.0.peers ≡ n.peers
  pub terms : n.current_term ≤ o.0.current_term
  pub kept :
      (c : NodeId)
      → o.0.current_term ≡ n.current_term
      → n.voted_for ≡ some c
      → o.0.voted_for ≡ some c
  pub votes : All (CastsOwn o.0) o.1
  pub saved : stored (hard_state n) o.1 ≡ hard_state o.0
  pub from_self : All (IsFrom n.id) o.1

-- The next term fits a u64.
abbrev pub HasRoom : RaftNode → Type 0
HasRoom n = n.current_term + 1 < u64_mod

hard_state_eq :
    (m n : RaftNode)
    → m.current_term ≡ n.current_term
    → m.voted_for ≡ n.voted_for
    → hard_state m ≡ hard_state n
hard_state_eq m n e f = ground arith

pub IsSteady-IsVoteSafe : {n : RaftNode} {o : Outcome} → IsSteady n o → IsVoteSafe n o
IsSteady-IsVoteSafe {n} {o} s = record {
  same_id = s.same_id;
  same_peers = s.same_peers;
  terms = omega (arith, s.same_term);
  kept = λ c _ e. s.same_vote ∙ e;
  votes =
      All-mono IsPlain (CastsOwn o.0) o.1 (λ a p. CastsNone-CastsOwn o.0 a (IsPlain-CastsNone a p))
        s.plain;
  saved =
      stored-plain (hard_state n) o.1 s.plain ∙ sym (hard_state_eq o.0 n s.same_term s.same_vote);
  from_self = s.from_self;
}

CastsOwn-of_same :
    (m n : RaftNode) (a : Action)
    → n.current_term ≡ m.current_term
    → n.voted_for ≡ m.voted_for
    → CastsOwn m a
    → CastsOwn n a
CastsOwn-of_same m n a e f own = λ t c v. let p = own t c v in (p.0 ∙ sym e, f ∙ p.1)

-- A step, and then one that leaves the hard state alone.
pub ▷-steady :
    {n : RaftNode} (o : Outcome) (f : RaftNode → Outcome)
    → IsVoteSafe n o
    → IsSteady o.0 (f o.0)
    → IsVoteSafe n (o ▷ f)
unfolding ◌▷◌
▷-steady {n} o f a s =
    let b = IsSteady-IsVoteSafe s in
    record {
      same_id = s.same_id ∙ a.same_id;
      same_peers = s.same_peers ∙ a.same_peers;
      terms = omega (arith, a.terms, b.terms);
      kept = λ c e v. s.same_vote ∙ a.kept c (sym s.same_term ∙ e) v;
      votes =
          All-append (CastsOwn (f o.0).0) o.1 (f o.0).1
            (All-mono (CastsOwn o.0) (CastsOwn (f o.0).0) o.1
              (λ x. CastsOwn-of_same o.0 (f o.0).0 x s.same_term s.same_vote) a.votes)
            b.votes;
      saved =
          stored-append (hard_state n) o.1 (f o.0).1
          ∙ ap (λ h. stored h (f o.0).1) a.saved
          ∙ b.saved;
      from_self =
          All-append (IsFrom n.id) o.1 (f o.0).1 a.from_self (rw (sym a.same_id) b.from_self);
    }

-- A step that casts no vote, and then any step.
pub quiet-▷ :
    {n : RaftNode} (o : Outcome) {p : Outcome}
    → IsVoteSafe n o
    → All CastsNone o.1
    → IsVoteSafe o.0 p
    → IsVoteSafe n (p.0, o.1 ++ p.1)
quiet-▷ {n} o {p} a quiet b = record {
  same_id = b.same_id ∙ a.same_id;
  same_peers = b.same_peers ∙ a.same_peers;
  terms = omega (arith, a.terms, b.terms);
  kept = λ c e v.
      let m : o.0.current_term ≡ n.current_term = omega (arith, a.terms, b.terms) in
      b.kept c (e ∙ sym m) (a.kept c m v);
  votes =
      All-append (CastsOwn p.0) o.1 p.1
        (All-mono CastsNone (CastsOwn p.0) o.1 (CastsNone-CastsOwn p.0) quiet) b.votes;
  saved = stored-append (hard_state n) o.1 p.1 ∙ ap (λ h. stored h p.1) a.saved ∙ b.saved;
  from_self = All-append (IsFrom n.id) o.1 p.1 a.from_self (rw (sym a.same_id) b.from_self);
}

-- Only the id, the peers and the hard state of the node matter.
pub IsVoteSafe-of_same :
    (m n : RaftNode) {o : Outcome}
    → (m.id ≡ n.id)
      × (m.peers ≡ n.peers)
      × (m.current_term ≡ n.current_term)
      × (m.voted_for ≡ n.voted_for)
    → IsVoteSafe m o
    → IsVoteSafe n o
IsVoteSafe-of_same m n {o} e v = record {
  same_id = v.same_id ∙ e.0;
  same_peers = v.same_peers ∙ e.1;
  terms = omega (arith, v.terms, e.2);
  kept = λ c x y. v.kept c (x ∙ sym e.2) (e.3 ∙ y);
  votes = v.votes;
  saved = ap (λ h. stored h o.1) (hard_state_eq n m (sym e.2) (sym e.3)) ∙ v.saved;
  from_self = rw (sym e.0) v.from_self;
}

-- A granted vote is stored before it is sent, and never replaces another one of the same term.
pub handle_request_vote-IsVoteSafe :
    (n : RaftNode) (from : NodeId) (i : LogIndex) (t : Term)
    → IsVoteSafe n (handle_request_vote n from i t)
unfolding handle_request_vote can_vote stored
handle_request_vote-IsVoteSafe n from i t = ground arith
