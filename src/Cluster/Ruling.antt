-- ===== src/Cluster/Ruling.antt =====
-- A move of one member of a cluster of nodes of raft-core/src/node.rs, and the entries of its leaders.
use raft_rupee.Base.{
  ◌≤◌, ◌≡◌, ◌⊎◌, refl, sym, ap, ◌∙◌, inl, inr, List, ◌++◌, some, true, false, arith, contains, ◌==◌,
  ==_iff, ==_refl, Bool-cases, subst, All, All-append, All-mono,
}
use raft_rupee.Types.{Term, LogIndex, NodeId}
use raft_rupee.Message.{Bytes}
use raft_rupee.Log.{last_index, last_term}
use raft_rupee.Node.State.{RaftNode, Rng, Outcome, is_leader, is_candidate}
use raft_rupee.Cluster.System.{Cluster, after, Move, here, next, Reach}
use raft_rupee.Cluster.Moves.{Reach-Invariant}
use raft_rupee.Cluster.Safety.{Mandate, leader-Mandate, Mandate-Moves, Mandate-eq}
use raft_rupee.Ledger.Chain.{Ledger, Chain, LogChain, Extends, Chain-Extends}
use raft_rupee.Ledger.Lawful.{enters, LinkedAction, Fresh, Lawful}
use raft_rupee.Replication.Leader.{leader-not-candidate}
use raft_rupee.Cluster.Ledgers.{LinkedAction-Extends, Origin, Ruled}

module _ (r : Rng) (members : List NodeId) where
  -- Member `i` has moved.
  module _ (k : Ledger) (c : Cluster) (i : NodeId) (o : Outcome) (u : Ruled r members k c)
      (known : contains members i ≡ true) (move : Move r members c (after c i o))
      (reach : Reach r members (after c i o)) where
    abbrev d : Cluster
    d = after c i o

    moved : (d.node i ≡ o.0) × (d.sent i ≡ c.sent i ++ o.1)
    moved = (rw (==_refl i) refl, rw (==_refl i) refl)

    kept : {t : Term} (j : NodeId) → Mandate r members c j t → Mandate r members d j t
    kept {t} j m = Mandate-Moves r members j t (next here move) m

    elected : is_leader o.0.role ≡ true → Mandate r members d i o.0.current_term
    elected l =
        let own =
          leader-Mandate r members i reach known
            (ap (λ (n : RaftNode). is_leader n.role) moved.0 ∙ l) in
        subst (Mandate r members d i) (ap (λ (n : RaftNode). n.current_term) moved.0) own

    -- In a fresh term of a leader there is no entry yet.
    pub Fresh-none :
        is_leader o.0.role ≡ true
        → Fresh (c.node i) o.0
        → (x : LogIndex) (y : Term × Bytes) → k o.0.current_term x ≡ some y
        → ⊥
    Fresh-none l fresh x y h =
        let w = u.origin o.0.current_term x y h in
        let same : w.by ≡ i =
          Mandate-eq r members w.by i o.0.current_term (Reach-Invariant r members reach)
            (kept w.by w.mandate) (elected l) in
        let reached : o.0.current_term ≤ (c.node i).current_term =
          subst (λ j. o.0.current_term ≤ (c.node j).current_term) same w.reached in
        let once : (c.node i).current_term ≡ o.0.current_term
            → is_candidate (c.node i).role ≡ false =
          subst
            (λ j. (c.node j).current_term ≡ o.0.current_term → is_candidate (c.node j).role ≡ false)
            same w.once in
        elim fresh [
          | inl lt ↦ absurd (omega (arith, lt, reached))
          | inr (candidate, e) ↦ let idle = once e in cc
        ]

    -- A larger ledger, whose new entries are those that the leader has created.
    module _ (k' : Ledger) (x : Extends k k') (w : Lawful k' (c.node i) o)
        (made : Chain k' (last_term (c.node i).log) (enters o.1))
        (source : (t : Term) (x : LogIndex) (y : Term × Bytes)
          → k' t x ≡ some y
          → (k t x ≡ some y)
            ⊎ ((t ≡ o.0.current_term)
                × (is_leader o.0.role ≡ true)
                × (x ≤ last_index o.0.log))) where
      old_logs :
          (j : NodeId)
          → contains members j ≡ true
          → LogChain k' (c.node j).log × All (LinkedAction k') (c.sent j)
      old_logs j there =
          let (l, s) = u.logs j there in
          (
            Chain-Extends k k' _ (c.node j).log.rest x l,
            All-mono (LinkedAction k) (LinkedAction k') (c.sent j) (LinkedAction-Extends k k' x) s,
          )

      new_logs :
          (j : NodeId)
          → contains members j ≡ true
          → LogChain k' (d.node j).log × All (LinkedAction k') (d.sent j)
      new_logs j there = elim (Bool-cases (i == j)) [
        | inr other ↦ rw other (old_logs j there)
        | inl same ↦
            let (l, s) = old_logs i known in
            rw same (w.chain made l, All-append (LinkedAction k') (c.sent i) o.1 s (w.sends made l))
      ]

      own_reign :
          is_leader o.0.role ≡ true
          → (z : LogIndex) (y : Term × Bytes) → k' o.0.current_term z ≡ some y
          → z ≤ last_index o.0.log
      own_reign l z y h = elim (source o.0.current_term z y h) [
        | inr (_, _, le) ↦ le
        | inl old ↦ elim (w.leads l) [
          | inr fresh ↦ absurd (Fresh-none l fresh z y old)
          | inl (lead, same, up) ↦
              omega
                (arith, up, u.reigns i known lead z y (subst (λ t. k t z ≡ some y) (sym same) old))
        ]
      ]

      new_reigns :
          (j : NodeId)
          → contains members j ≡ true
          → is_leader (d.node j).role ≡ true
          → (z : LogIndex) (y : Term × Bytes) → k' (d.node j).current_term z ≡ some y
          → z ≤ last_index (d.node j).log
      new_reigns j there l z y h = elim (Bool-cases (i == j)) [
        | inl same ↦ rw same (own_reign (rw same at l) z y (rw same at h))
        | inr other ↦
            let l' : is_leader (c.node j).role ≡ true = rw other at l in
            let h' : k' (c.node j).current_term z ≡ some y = rw other at h in
            elim (source (c.node j).current_term z y h') [
              | inl old ↦ rw other (u.reigns j there l' z y old)
              | inr (t, lead, _) ↦
                  let theirs : Mandate r members d j (d.node j).current_term =
                    leader-Mandate r members j reach there l in
                  let theirs' : Mandate r members d j (c.node j).current_term =
                    rw other at theirs in
                  let same : i ≡ j =
                    Mandate-eq r members i j o.0.current_term (Reach-Invariant r members reach)
                      (elected lead) (subst (Mandate r members d j) t theirs') in
                  let yes : (i == j) ≡ true = (==_iff i j).1 same in cc
            ]
      ]

      own_once :
          (t : Term) (b : Origin r members c t)
          → b.by ≡ i
          → (t ≤ o.0.current_term) × (o.0.current_term ≡ t → is_candidate o.0.role ≡ false)
      own_once t b = own b.by b.reached b.once
        where
          own :
              (j : NodeId)
              → t ≤ (c.node j).current_term
              → ((c.node j).current_term ≡ t → is_candidate (c.node j).role ≡ false)
              → j ≡ i
              → (t ≤ o.0.current_term) × (o.0.current_term ≡ t → is_candidate o.0.role ≡ false)
          own j le once e =
              let le' : t ≤ (c.node i).current_term =
                subst (λ j. t ≤ (c.node j).current_term) e le in
              let once' : (c.node i).current_term ≡ t → is_candidate (c.node i).role ≡ false =
                subst (λ j. (c.node j).current_term ≡ t → is_candidate (c.node j).role ≡ false) e
                  once in
              (
                omega (arith, le', w.terms),
                λ now. elim (Bool-cases (is_candidate o.0.role)) [
                  | inr idle ↦ idle
                  | inl runs ↦ elim (w.runs runs) [
                    | inl lt ↦ absurd (omega (arith, lt, le', now))
                    | inr (candidate, same) ↦ let idle = once' (same ∙ now) in cc
                  ]
                ],
              )

      old-Origin : (t : Term) → Origin r members c t → Origin r members d t
      old-Origin t b = elim (Bool-cases (i == b.by)) [
        | inr other ↦ record {
          by = b.by;
          known = b.known;
          mandate = kept b.by b.mandate;
          reached = rw other (b.reached);
          once = rw other (b.once);
        }
        | inl same ↦
            let own = own_once t b (sym ((==_iff i b.by).0 same)) in
            record {
              by = b.by;
              known = b.known;
              mandate = kept b.by b.mandate;
              reached = rw same (own.0);
              once = rw same (own.1);
            }
      ]

      own-Origin : is_leader o.0.role ≡ true → Origin r members d o.0.current_term
      own-Origin l = record {
        by = i;
        known = known;
        mandate = elected l;
        reached = let e = ap (λ (n : RaftNode). n.current_term) moved.0 in omega (arith, e);
        once = λ _.
            ap (λ (n : RaftNode). is_candidate n.role) moved.0
            ∙ (leader-not-candidate o.0.role l).0;
      }

      pub after-Ruled : Ruled r members k' d
      after-Ruled = record {
        logs = new_logs;
        reigns = new_reigns;
        origin = λ t z y h. elim (source t z y h) [
          | inl old ↦ old-Origin t (u.origin t z y old)
          | inr (e, l, _) ↦ rw e (own-Origin l)
        ];
      }
