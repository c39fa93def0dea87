-- ===== src/Ledger/Lawful.antt =====
-- What a move of a node of raft-core/src/node.rs adds to its log, and in which role and term.
use raft_rupee.Base.{
  ◌≤◌, ◌<◌, ◌≡◌, ◌⊎◌, refl, sym, ap, ◌∙◌, inl, inr, List, [], ◌∷◌, ◌++◌, map, append_assoc, true,
  arith, All,
}
use raft_rupee.Types.{NodeId, next}
use raft_rupee.Message.{LogEntry, MessageKind}
use raft_rupee.Log.{last_index, last_term}
use raft_rupee.Node.State.{Role, RaftNode, Action, Outcome, done, is_leader, is_candidate}
use raft_rupee.Ledger.Chain.{Ledger, Chain, LogChain}

-- The entries that a leader has created, by its requests to store them.
abbrev pub enters_of : Action → List LogEntry
enters_of (Action.append_entries es) = es
enters_of _ = []

abbrev pub enters : List Action → List LogEntry
enters [] = []
enters (a ∷ rest) = enters_of a ++ enters rest

pub enters-append : (xs ys : List Action) → enters (xs ++ ys) ≡ enters xs ++ enters ys
enters-append [] ys = refl
enters-append (Action.append_entries es ∷ xs) ys =
    ap (λ r. es ++ r) (enters-append xs ys) ∙ sym (append_assoc es (enters xs) (enters ys))
enters-append (_ ∷ xs) ys = enters-append xs ys

pub enters-map :
    (f : NodeId → Action) (ps : List NodeId)
    → ((p : NodeId) → enters_of (f p) ≡ [])
    → enters (map f ps) ≡ []
enters-map f [] h = refl
enters-map f (p ∷ ps) h = rw (h p) (enters-map f ps h)

-- The entries of an append follow its previous term.
abbrev pub LinkedKind : Ledger → MessageKind → Type 0
LinkedKind k (MessageKind.append_entries _ t es _) = Chain k t es
LinkedKind k _ = Unit {0}

abbrev pub LinkedAction : Ledger → Action → Type 0
LinkedAction k (Action.send m) = LinkedKind k m.kind
LinkedAction k _ = Unit {0}

-- A newer term, or the one in which the node ran for leader.
abbrev pub Fresh : RaftNode → RaftNode → Type 0
Fresh n m =
    (n.current_term < m.current_term)
    ⊎ ((is_candidate n.role ≡ true) × (n.current_term ≡ m.current_term))

-- A leader has created one entry, at the end of its log.
pub record Enters (n : RaftNode) (o : Outcome) : Type 0 where
  pub entry : LogEntry
  pub only : enters o.1 ≡ entry ∷ []
  pub index : entry.index ≡ next (last_index n.log)
  pub term : entry.term ≡ o.0.current_term
  pub leads : is_leader o.0.role ≡ true
  pub last : last_index o.0.log ≡ entry.index

-- Nothing is created, and role, term and log stay.
pub record Calm (n : RaftNode) (o : Outcome) : Type 0 where
  pub silent : enters o.1 ≡ []
  pub role : o.0.role ≡ n.role
  pub term : o.0.current_term ≡ n.current_term
  pub log : o.0.log ≡ n.log

-- The node goes on leading in its term without losing entries.
abbrev pub StillLeads : RaftNode → RaftNode → Type 0
StillLeads n m =
    (is_leader n.role ≡ true)
    × (n.current_term ≡ m.current_term)
    × (last_index n.log ≤ last_index m.log)

-- A leader is one that goes on, or one of a fresh term, as a candidate is; log and messages follow
-- a ledger that has what is created.
pub record Lawful (k : Ledger) (n : RaftNode) (o : Outcome) : Type 0 where
  pub chain : Chain k (last_term n.log) (enters o.1) → LogChain k n.log → LogChain k o.0.log
  pub sends : Chain k (last_term n.log) (enters o.1) → LogChain k n.log → All (LinkedAction k) o.1
  pub entered : (enters o.1 ≡ []) ⊎ Enters n o
  pub terms : n.current_term ≤ o.0.current_term
  pub leads : is_leader o.0.role ≡ true → StillLeads n o.0 ⊎ Fresh n o.0
  pub runs : is_candidate o.0.role ≡ true → Fresh n o.0

module _ (k : Ledger) where
  pub Calm-Lawful :
      {n : RaftNode} {o : Outcome}
      → Calm n o
      → (LogChain k n.log → All (LinkedAction k) o.1)
      → Lawful k n o
  Calm-Lawful {n} {o} c s = record {
    chain = λ _ h. rw c.log h;
    sends = λ _ h. s h;
    entered = inl c.silent;
    terms = omega (arith, c.term);
    leads = λ l. inl (
      rw c.role at l,
      sym c.term,
      let e : last_index o.0.log ≡ last_index n.log = ap last_index c.log in omega (arith, e),
    );
    runs = λ l. inr (rw c.role at l, sym c.term);
  }

  pub done-Lawful : (n : RaftNode) → Lawful k n (done n)
  done-Lawful n =
      Calm-Lawful (record { silent = refl; role = refl; term = refl; log = refl }) (λ _. tt)

  -- A node that follows has created nothing.
  pub follower-Lawful :
      {n : RaftNode} {o : Outcome}
      → o.0.role ≡ Role.follower
      → n.current_term ≤ o.0.current_term
      → enters o.1 ≡ []
      → (LogChain k n.log → LogChain k o.0.log × All (LinkedAction k) o.1)
      → Lawful k n o
  follower-Lawful {n} {o} f t e h = record {
    chain = λ _ c. (h c).0;
    sends = λ _ c. (h c).1;
    entered = inl e;
    terms = t;
    leads = λ l. let x : is_leader Role.follower ≡ true = rw f at l in cc;
    runs = λ l. let x : is_candidate Role.follower ≡ true = rw f at l in cc;
  }

  -- Only role, term and log of the node before matter.
  pub Lawful-of_same :
      (m n : RaftNode) {o : Outcome}
      → (m.role ≡ n.role) × (m.current_term ≡ n.current_term) × (m.log ≡ n.log)
      → Lawful k m o
      → Lawful k n o
  Lawful-of_same m n {o} e w = record {
    chain = rw (e.2) at w.chain;
    sends = rw (e.2) at w.sends;
    entered = elim w.entered [
      | inl s ↦ inl s
      | inr r ↦ inr (record {
        entry = r.entry;
        only = r.only;
        index = rw (e.2) at r.index;
        term = r.term;
        leads = r.leads;
        last = r.last;
      })
    ];
    terms = omega (arith, e.1, w.terms);
    leads = rw (e.0, e.1, e.2) at w.leads;
    runs = rw (e.0, e.1) at w.runs;
  }
