-- ===== src/Sim/Steps.antt =====
-- raft-sim/src/simulator.rs: each part of `Simulator::step`, the proposals, crashes and restarts, as
-- moves of the cluster of Cluster/System.antt.
use raft_rupee.Base.{
  ◌&&◌, ◌≡◌, refl, sym, ap, ◌∙◌, inl, inr, List, [], ◌∷◌, some, true, All, All-mono, arith,
  Option-cases, contains, some_inj, subst,
}
use raft_rupee.Types.{NodeId}
use raft_rupee.Message.{Message}
use raft_rupee.Node.State.{RaftNode, Outcome}
use raft_rupee.Node.Snapshot.{compact_logs}
use raft_rupee.Node.Step
use raft_rupee.Election.VoteEvents.{step-IsVoteSafe}
use raft_rupee.Election.Voting.{HasRoom}
use raft_rupee.Cluster.System.{
  Cluster, after, Move, tick, deliver, request, propose, compact, restart, Moves, here, next,
}
use raft_rupee.Cluster.Safety.{Moves_trans}
use raft_rupee.Sim.Tracking.{some-not-none}
use raft_rupee.Sim.Perform.{perform-Refines}
use raft_rupee.Sim.Refines.{WasSent, WasSent-after, Refines}
use raft_rupee.Sim.Terms.{in_terms, deliveries_in_terms, in_terms-HasRoom}
use raft_rupee.Sim.Simulator.{World, Simulator, get, perform, deliver_one, deliver_all}

module _ (w : World) (members : List NodeId) where
  -- The cluster makes moves of its own to one that the simulator is as.
  pub data Goes (c : Cluster) (sim : Simulator) : Type 0 where
    reached : (d : Cluster) → Moves w.node_rng members c d → Refines members d sim → Goes c sim

  Move-WasSent :
      {c d : Cluster} (m : Message)
      → Move w.node_rng members c d
      → WasSent members c m
      → WasSent members d m
  Move-WasSent {c} m (tick i _ _) = WasSent-after members c i (Step.tick w.node_rng (c.node i)) m
  Move-WasSent {c} m (deliver i _ _ {o} _ _ _ _ _ _) = WasSent-after members c i o m
  Move-WasSent {c} m (request i _ {o} _ _ _ _) = WasSent-after members c i o m
  Move-WasSent {c} m (propose i command _) =
      WasSent-after members c i (Step.propose (c.node i) command) m
  Move-WasSent {c} m (compact i index t payload _) =
      WasSent-after members c i (compact_logs (c.node i) index t payload) m
  Move-WasSent m (restart _ _ _ _ _ _ _ _ _) = λ s. s

  pub Moves-WasSent :
      {c d : Cluster} (m : Message)
      → Moves w.node_rng members c d
      → WasSent members c m
      → WasSent members d m
  Moves-WasSent m here s = s
  Moves-WasSent m (next ms mv) s = Move-WasSent m mv (Moves-WasSent m ms s)

  -- What goes on from every cluster that is reached goes on.
  pub Goes-then :
      (c : Cluster) (mid sim : Simulator)
      → Goes c mid
      → ((d : Cluster) → Moves w.node_rng members c d → Refines members d mid → Goes d sim)
      → Goes c sim
  Goes-then c mid sim (reached d ms m) f = elim (f d ms m) [
    | reached e ns k ↦ reached e (Moves_trans w.node_rng members ms ns) k
  ]

  pub one_move :
      (c : Cluster) (sim next_sim : Simulator) (i : NodeId) (o : Outcome)
      → contains members i ≡ true
      → Move w.node_rng members c (after c i o)
      → o.0.peers ≡ (c.node i).peers
      → perform w i o sim ≡ some next_sim
      → Refines members c sim
      → Goes c next_sim
  one_move c sim next_sim i o member mv peers h m =
      reached (after c i o) (next here mv)
        (perform-Refines members w c sim next_sim i o member peers h m)

  deliver_one-Goes :
      (c : Cluster) (sim next_sim : Simulator) (msg : Message)
      → WasSent members c msg
      → Refines members c sim
      → in_terms sim.nodes ≡ true
      → deliver_one w msg sim ≡ some next_sim
      → Goes c next_sim
  unfolding deliver_one
  deliver_one-Goes c sim next_sim msg (j, from_member, sent) m ok h =
      elim (Option-cases (get sim.nodes msg.to)) [
        | inl down ↦ subst (Goes c) (some_inj (rw (deliver_one, down) at h)) (reached c here m)
        | inr (n, up) ↦ elim (Option-cases (Step.step w.node_rng n msg)) [
          | inl failed ↦ absurd (some-not-none (sym (rw (deliver_one, up, failed) at h)))
          | inr (o, e) ↦
              let (member, is_n) = m.alive msg.to n up in
              let stepped : Step.step w.node_rng (c.node msg.to) msg ≡ some o =
                ap (λ (k : RaftNode). Step.step w.node_rng k msg) is_n ∙ e in
              let ran = rw (deliver_one, up, e) at h in
              let room : HasRoom (c.node msg.to) =
                subst HasRoom (sym is_n) (in_terms-HasRoom sim.nodes msg.to n up ok) in
              one_move c sim next_sim msg.to o member
                (deliver msg.to j msg member from_member sent refl room stepped)
                (step-IsVoteSafe w.node_rng (c.node msg.to) msg room stepped).same_peers ran m
        ]
      ]

  pub deliver_all-Goes :
      (msgs : List Message) (c : Cluster) (sim next_sim : Simulator)
      → All (WasSent members c) msgs
      → Refines members c sim
      → deliveries_in_terms w msgs sim ≡ true
      → deliver_all w msgs sim ≡ some next_sim
      → Goes c next_sim
  unfolding deliver_all deliveries_in_terms
  deliver_all-Goes [] c sim next_sim sent m ok h = subst (Goes c) (some_inj h) (reached c here m)
  deliver_all-Goes (msg ∷ rest) c sim next_sim (s, sent) m ok h =
      elim (Option-cases (deliver_one w msg sim)) [
        | inl failed ↦ absurd (some-not-none (sym (rw (deliver_all, failed) at h)))
        | inr (mid, e) ↦
            let both : (in_terms sim.nodes && deliveries_in_terms w rest mid) ≡ true =
              rw (deliveries_in_terms, e) at ok in
            Goes-then c mid next_sim (deliver_one-Goes c sim mid msg s m (ground arith) e)
              (λ d ms k.
                deliver_all-Goes rest d mid next_sim
                  (All-mono (WasSent members c) (WasSent members d) rest (λ x. Moves-WasSent x ms)
                    sent)
                  k (ground arith) (rw (deliver_all, e) at h))
      ]
