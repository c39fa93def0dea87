-- ===== src/Sim/Terms.antt =====
-- raft-sim/src/simulator.rs: a step of the simulator in which no node that is alive uses up the terms
-- of a u64, as a test.
use raft_rupee.Base.{
  ◌+◌, ◌≡◌, inl, inr, List, [], ◌∷◌, none, some, Bool, true, arith, ltb, ltb→lt, ◌&&◌, ◌==◌,
  Bool-cases, some_inj, subst, u64_mod, add64,
}
use raft_rupee.Types.{NodeId}
use raft_rupee.Message.{Message}
use raft_rupee.Node.State.{RaftNode}
use raft_rupee.Election.Voting.{HasRoom}
use raft_rupee.Sim.Network.{drain_due}
use raft_rupee.Sim.Simulator.{
  World, Nodes, Simulator, get, keys, deliver_one, deliver_all, tick_one,
}

-- Every node that is alive has room for another term.
unfoldable pub in_terms : Nodes → Bool
in_terms [] = true
in_terms ((id, n) ∷ rest) = ltb (n.current_term + 1) u64_mod && in_terms rest

-- Before each delivery.
unfoldable pub deliveries_in_terms : World → List Message → Simulator → Bool
deliveries_in_terms w [] sim = true
deliveries_in_terms w (msg ∷ rest) sim =
    in_terms sim.nodes
    && (elim (deliver_one w msg sim) [ none ↦ true | some next ↦ deliveries_in_terms w rest next ])

-- Before each tick.
unfoldable pub ticks_in_terms : World → List NodeId → Simulator → Bool
ticks_in_terms w [] sim = true
ticks_in_terms w (id ∷ rest) sim =
    in_terms sim.nodes
    && (elim (tick_one w id sim) [ none ↦ true | some next ↦ ticks_in_terms w rest next ])

-- Through a step, up to the compactions, which do not look at terms.
unfoldable pub step_in_terms : World → Simulator → Bool
step_in_terms w sim =
    let now = add64 sim.tick_count 1 in
    let due = drain_due w.peek now sim.network in
    let start : Simulator = record sim { tick_count = now; network = due.1 } in
    deliveries_in_terms w due.0 start && (elim (deliver_all w due.0 start) [
      | none ↦ true
      | some delivered ↦ ticks_in_terms w (keys delivered.nodes) delivered
    ])

pub in_terms-HasRoom :
    (nodes : Nodes) (id : NodeId) (n : RaftNode)
    → get nodes id ≡ some n
    → in_terms nodes ≡ true
    → HasRoom n
unfolding get in_terms
in_terms-HasRoom [] id n up ok = cc
in_terms-HasRoom ((k, m) ∷ rest) id n up ok = elim (Bool-cases (k == id)) [
  | inl here ↦ subst HasRoom (some_inj (rw here at up)) (ltb→lt _ _ (ground arith))
  | inr other ↦ in_terms-HasRoom rest id n (rw other at up) (ground arith)
]
