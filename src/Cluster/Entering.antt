-- ===== src/Cluster/Entering.antt =====
-- A move of one member of a cluster of nodes of raft-core/src/node.rs, by whether it creates an entry.
use raft_rupee.Base.{◌≡◌, sym, ◌∙◌, inl, inr, List, [], some, true, arith, contains, subst}
use raft_rupee.Types.{Term, NodeId, next_of_lt}
use raft_rupee.Message.{Bytes}
use raft_rupee.Log.{last_index, last_term}
use raft_rupee.Node.State.{Rng, Outcome}
use raft_rupee.Progress.Sound.{HasLogRoom}
use raft_rupee.Cluster.System.{Cluster, after, Move, Reach}
use raft_rupee.Cluster.Ledgers.{enter, enter-Extends, enter-cases, enter-entry, Ruled}
use raft_rupee.Cluster.Ruling.{Fresh-none, after-Ruled}
use raft_rupee.Ledger.Chain.{Ledger, Chain, Extends}
use raft_rupee.Ledger.Lawful.{enters, Enters, Lawful}

module _ (r : Rng) (members : List NodeId) where
  module _ (k : Ledger) (c : Cluster) (i : NodeId) (o : Outcome) (u : Ruled r members k c)
      (known : contains members i ≡ true) (move : Move r members c (after c i o))
      (reach : Reach r members (after c i o)) where
    -- A move that creates no entry.
    pub silent-Ruled :
        Lawful k (c.node i) o → enters o.1 ≡ [] → (k' : Ledger) × Ruled r members k' (after c i o)
    silent-Ruled w e = (
      k,
      after-Ruled r members k c i o u known move reach k (λ t x y h. h) w (rw e tt)
          (λ t x y h. inl h),
    )

    creating-Ruled :
        ((k' : Ledger) → Extends k k' → Lawful k' (c.node i) o)
        → HasLogRoom (c.node i)
        → Enters (c.node i) o
        → (k' : Ledger) × Ruled r members k' (after c i o)
    creating-Ruled lawful room e =
        let n = c.node i in
        let before = last_term n.log in
        let w = lawful k (λ t x y h. h) in
        let new : (y : Term × Bytes) → k e.entry.term e.entry.index ≡ some y → ⊥ = λ y h.
          let h' : k o.0.current_term e.entry.index ≡ some y =
            subst (λ t. k t e.entry.index ≡ some y) e.term h in
          elim (w.leads e.leads) [
            | inr fresh ↦ Fresh-none r members k c i o u known move reach e.leads fresh _ y h'
            | inl (lead, same, _) ↦
                let le =
                  u.reigns i known lead e.entry.index y
                    (subst (λ t. k t e.entry.index ≡ some y) (sym same) h') in
                absurd
                  (omega (arith, le, e.index, next_of_lt (last_index n.log) (omega (arith, room))))
          ] in
        let k' = enter k e.entry before in
        let more = enter-Extends k e.entry before new in
        let made : Chain k' before (enters o.1) =
          subst (Chain k' before) (sym e.only) (enter-entry k e.entry before, tt) in
        (
          k',
          after-Ruled r members k c i o u known move reach k' more (lawful k' more) made (λ t x y h.
              elim (enter-cases k e.entry before t x y h) [
                | inl old ↦ inl old
                | inr (et, ex) ↦ inr (et ∙ e.term, e.leads, omega (arith, ex, e.last))
              ]),
        )

    pub move-Ruled :
        ((k' : Ledger) → Extends k k' → Lawful k' (c.node i) o)
        → HasLogRoom (c.node i)
        → (k' : Ledger) × Ruled r members k' (after c i o)
    move-Ruled lawful room = elim (lawful k (λ t x y h. h)).entered [
      | inl e ↦ silent-Ruled (lawful k (λ t x y h. h)) e
      | inr e ↦ creating-Ruled lawful room e
    ]
