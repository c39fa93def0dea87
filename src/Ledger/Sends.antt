-- ===== src/Ledger/Sends.antt =====
-- What a leader of raft-core/src/node.rs sends of its log, and one call after another.
use raft_rupee.Base.{
  ◌≤◌, ◌≡◌, ◌⊎◌, refl, sym, ap, ◌∙◌, inl, inr, [], ◌++◌, map, append-nil, true, arith, All,
  All-append, All-map, if_cases, leb, leb-false→lt, unwrap_or,
}
use raft_rupee.Types.{NodeId}
use raft_rupee.Log.{last_index, last_term, first_index}
use raft_rupee.Node.State.{RaftNode, Action, Outcome, push, is_leader, is_candidate}
use raft_rupee.Node.Replicate.{replicate_to_peer}
use raft_rupee.Ledger.Chain.{Ledger, Chain, LogChain}
use raft_rupee.Ledger.Edits.{entries_from-Chain}
use raft_rupee.Ledger.Lawful.{
  enters, enters_of, enters-append, enters-map, LinkedAction, Fresh, Calm, StillLeads, Lawful,
  Calm-Lawful,
}

pub replicate_to_peer-enters : (n : RaftNode) (p : NodeId) → enters_of (replicate_to_peer n p) ≡ []
unfolding replicate_to_peer
replicate_to_peer-enters n p =
    if_cases (λ (a : Action). enters_of a ≡ [])
      (leb (unwrap_or (n.next_index p) 1) (first_index n.log)) _ _ (λ _. refl) (λ _. refl)

pub broadcast-enters : (n : RaftNode) → enters (map (replicate_to_peer n) n.peers) ≡ []
broadcast-enters n = enters-map (replicate_to_peer n) n.peers (replicate_to_peer-enters n)

-- From a fresh candidate or term on, terms do not go back.
Fresh-trans :
    (n m p : RaftNode)
    → n.current_term ≤ m.current_term
    → (is_candidate m.role ≡ true → Fresh n m)
    → Fresh m p
    → Fresh n p
Fresh-trans n m p le runs (inl lt) = inl (omega (arith, le, lt))
Fresh-trans n m p le runs (inr (c, e)) = elim (runs c) [
  | inl lt ↦ inl (omega (arith, lt, e))
  | inr (d, f) ↦ inr (d, f ∙ e)
]

module _ (k : Ledger) where
  pub replicate_to_peer-LinkedAction :
      (n : RaftNode) (p : NodeId) → LogChain k n.log → LinkedAction k (replicate_to_peer n p)
  unfolding replicate_to_peer first_index
  replicate_to_peer-LinkedAction n p h =
      let next = unwrap_or (n.next_index p) 1 in
      if_cases (LinkedAction k) (leb next (first_index n.log)) _ _ (λ _. tt)
        (λ above. entries_from-Chain k n.log next h (leb-false→lt _ _ above))

  pub broadcast-LinkedAction :
      (n : RaftNode) → LogChain k n.log → All (LinkedAction k) (map (replicate_to_peer n) n.peers)
  broadcast-LinkedAction n h =
      All-map (LinkedAction k) (replicate_to_peer n) n.peers
        (λ p. replicate_to_peer-LinkedAction n p h)

  -- An action that is no message and creates nothing, or a message that is linked.
  pub push-Lawful :
      (n : RaftNode) (a : Action)
      → enters_of a ≡ []
      → (LogChain k n.log → LinkedAction k a)
      → Lawful k n (push n a)
  push-Lawful n a e h =
      Calm-Lawful k (record { silent = rw e refl; role = refl; term = refl; log = refl })
        (λ c. (h c, tt))

  module _ {n : RaftNode} (o p : Outcome) (a : Lawful k n o) (b : Lawful k o.0 p) where
    both-terms : n.current_term ≤ p.0.current_term
    both-terms = omega (arith, a.terms, b.terms)

    both-leads : is_leader p.0.role ≡ true → StillLeads n p.0 ⊎ Fresh n p.0
    both-leads l = elim (b.leads l) [
      | inr fresh ↦ inr (Fresh-trans n o.0 p.0 a.terms a.runs fresh)
      | inl (lead, same, up) ↦ elim (a.leads lead) [
        | inl (lead', same', up') ↦ inl (lead', same' ∙ same, omega (arith, up, up'))
        | inr (inl lt) ↦ inr (inl (omega (arith, lt, same)))
        | inr (inr (c, e)) ↦ inr (inr (c, e ∙ same))
      ]
    ]

    both-runs : is_candidate p.0.role ≡ true → Fresh n p.0
    both-runs c = Fresh-trans n o.0 p.0 a.terms a.runs (b.runs c)

    -- A first call that leaves the log alone.
    pub then-Lawful : enters o.1 ≡ [] → o.0.log ≡ n.log → Lawful k n (p.0, o.1 ++ p.1)
    then-Lawful e same =
        let all : enters (o.1 ++ p.1) ≡ enters p.1 =
          enters-append o.1 p.1 ∙ ap (λ x. x ++ enters p.1) e in
        let first : Chain k (last_term n.log) (enters o.1) = rw e tt in
        record {
          chain = λ c h. b.chain (rw (same) (rw all at c)) (a.chain first h);
          sends = λ c h.
              All-append (LinkedAction k) o.1 p.1 (a.sends first h)
                (b.sends (rw (same) (rw all at c)) (a.chain first h));
          entered = elim b.entered [
            | inl s ↦ inl (all ∙ s)
            | inr r ↦ inr (record {
              entry = r.entry;
              only = all ∙ r.only;
              index = rw (same) at r.index;
              term = r.term;
              leads = r.leads;
              last = r.last;
            })
          ];
          terms = both-terms;
          leads = both-leads;
          runs = both-runs;
        }

    -- A second call that changes neither role nor term nor log.
    pub and-Lawful : Calm o.0 p → Lawful k n (p.0, o.1 ++ p.1)
    and-Lawful calm =
        let all : enters (o.1 ++ p.1) ≡ enters o.1 =
          enters-append o.1 p.1 ∙ ap (λ x. enters o.1 ++ x) calm.silent ∙ append-nil (enters o.1) in
        let second : Chain k (last_term o.0.log) (enters p.1) = rw (calm.silent) tt in
        record {
          chain = λ c h. b.chain second (a.chain (rw all at c) h);
          sends = λ c h.
              All-append (LinkedAction k) o.1 p.1 (a.sends (rw all at c) h)
                (b.sends second (a.chain (rw all at c) h));
          entered = elim a.entered [
            | inl s ↦ inl (all ∙ s)
            | inr r ↦ inr (record {
              entry = r.entry;
              only = all ∙ r.only;
              index = r.index;
              term = r.term ∙ sym calm.term;
              leads = ap is_leader calm.role ∙ r.leads;
              last = ap last_index calm.log ∙ r.last;
            })
          ];
          terms = both-terms;
          leads = both-leads;
          runs = both-runs;
        }
