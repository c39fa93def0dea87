-- ===== src/Sim/Runs.antt =====
-- raft-sim/src/simulator.rs: ticks, compactions, proposals, crashes and restarts of the simulator as
-- moves of the cluster of Cluster/System.antt.
use raft_rupee.Base.{
  ◌&&◌, true, arith, ◌≡◌, sym, ap, ◌∙◌, inl, inr, List, [], ◌∷◌, some, Bool, ltb, ◌==◌, Bool-cases,
  Option-cases, some_inj, subst, unwrap_or,
}
use raft_rupee.Types.{NodeId, zero_term}
use raft_rupee.Message.{Bytes}
use raft_rupee.Log.{len, term_at}
use raft_rupee.Node.State.{RaftNode, Outcome}
use raft_rupee.Node.Snapshot.{compact_logs}
use raft_rupee.Node.Step
use raft_rupee.Election.SteadyHandlers.{propose-IsSteady, compact_logs-IsSteady}
use raft_rupee.Election.VoteSteps.{tick-IsVoteSafe}
use raft_rupee.Cluster.System.{Cluster, tick, propose, compact, here}
use raft_rupee.Sim.Tracking.{some-not-none}
use raft_rupee.Sim.Delivery.{get-remove}
use raft_rupee.Sim.Refines.{Refines}
use raft_rupee.Sim.Steps.{Goes, reached, Goes-then, one_move}
use raft_rupee.Election.Voting.{HasRoom}
use raft_rupee.Sim.Terms.{in_terms, ticks_in_terms, in_terms-HasRoom}
use raft_rupee.Sim.Simulator.{
  World, Simulator, get, crash_node, perform, tick_one, tick_all, compact_one, compact_all,
  snapshot_payload, find_leader, propose_at, propose_command,
}

module _ (w : World) (members : List NodeId) where
  tick_one-Goes :
      (c : Cluster) (sim next_sim : Simulator) (id : NodeId)
      → Refines members c sim
      → in_terms sim.nodes ≡ true
      → tick_one w id sim ≡ some next_sim
      → Goes w members c next_sim
  unfolding tick_one
  tick_one-Goes c sim next_sim id m ok h = elim (Option-cases (get sim.nodes id)) [
    | inl down ↦ subst (Goes w members c) (some_inj (rw (tick_one, down) at h)) (reached c here m)
    | inr (n, up) ↦
        let (member, is_n) = m.alive id n up in
        let ran = rw (tick_one, up) at h in
        let room : HasRoom (c.node id) =
          subst HasRoom (sym is_n) (in_terms-HasRoom sim.nodes id n up ok) in
        one_move w members c sim next_sim id (Step.tick w.node_rng (c.node id)) member
          (tick id member room) (tick-IsVoteSafe w.node_rng (c.node id) room).same_peers
          (ap (λ (k : RaftNode). perform w id (Step.tick w.node_rng k) sim) is_n ∙ ran) m
  ]

  -- The compaction of a node, with the arguments that the simulator gives.
  abbrev compaction : RaftNode → Outcome
  compaction n =
      compact_logs n n.commit_index (unwrap_or (term_at n.log n.commit_index) zero_term)
        snapshot_payload

  compact_one-Goes :
      (c : Cluster) (sim next_sim : Simulator) (id : NodeId)
      → Refines members c sim
      → compact_one w id sim ≡ some next_sim
      → Goes w members c next_sim
  unfolding compact_one
  compact_one-Goes c sim next_sim id m h = elim (Option-cases (get sim.nodes id)) [
    | inl down ↦
        subst (Goes w members c) (some_inj (rw (compact_one, down) at h)) (reached c here m)
    | inr (n, up) ↦ elim (Bool-cases (ltb 15 (len n.log))) [
      | inr short ↦
          subst (Goes w members c) (some_inj (rw (compact_one, up, short) at h)) (reached c here m)
      | inl long ↦
          let (member, is_n) = m.alive id n up in
          let ran = rw (compact_one, up, long) at h in
          one_move w members c sim next_sim id (compaction (c.node id)) member
            (compact id _ _ _ member) (compact_logs-IsSteady (c.node id) _ _ _).same_peers
            (ap (λ (k : RaftNode). perform w id (compaction k) sim) is_n ∙ ran) m
    ]
  ]

  pub tick_all-Goes :
      (ids : List NodeId) (c : Cluster) (sim next_sim : Simulator)
      → Refines members c sim
      → ticks_in_terms w ids sim ≡ true
      → tick_all w ids sim ≡ some next_sim
      → Goes w members c next_sim
  unfolding tick_all ticks_in_terms
  tick_all-Goes [] c sim next_sim m ok h = subst (Goes w members c) (some_inj h) (reached c here m)
  tick_all-Goes (id ∷ rest) c sim next_sim m ok h = elim (Option-cases (tick_one w id sim)) [
    | inl failed ↦ absurd (some-not-none (sym (rw (tick_all, failed) at h)))
    | inr (mid, e) ↦
        let both : (in_terms sim.nodes && ticks_in_terms w rest mid) ≡ true =
          rw (ticks_in_terms, e) at ok in
        Goes-then w members c mid next_sim (tick_one-Goes c sim mid id m (ground arith) e)
          (λ d ms k. tick_all-Goes rest d mid next_sim k (ground arith) (rw (tick_all, e) at h))
  ]

  pub compact_all-Goes :
      (ids : List NodeId) (c : Cluster) (sim next_sim : Simulator)
      → Refines members c sim
      → compact_all w ids sim ≡ some next_sim
      → Goes w members c next_sim
  unfolding compact_all
  compact_all-Goes [] c sim next_sim m h = subst (Goes w members c) (some_inj h) (reached c here m)
  compact_all-Goes (id ∷ rest) c sim next_sim m h = elim (Option-cases (compact_one w id sim)) [
    | inl failed ↦ absurd (some-not-none (sym (rw (compact_all, failed) at h)))
    | inr (mid, e) ↦
        Goes-then w members c mid next_sim (compact_one-Goes c sim mid id m e)
          (λ d ms k. compact_all-Goes rest d mid next_sim k (rw (compact_all, e) at h))
  ]

  propose_at-Goes :
      (c : Cluster) (sim next_sim : Simulator) (id : NodeId) (cmd : Bytes) (done : Bool)
      → Refines members c sim
      → propose_at w id cmd sim ≡ some (next_sim, done)
      → Goes w members c next_sim
  unfolding propose_at
  propose_at-Goes c sim next_sim id cmd done m h = elim (Option-cases (get sim.nodes id)) [
    | inl down ↦
        let now = ap (λ (r : Simulator × Bool). r.0) (some_inj (rw (propose_at, down) at h)) in
        subst (Goes w members c) now (reached c here m)
    | inr (n, up) ↦ elim (Option-cases (perform w id (Step.propose n cmd) sim)) [
      | inl failed ↦ absurd (some-not-none (sym (rw (propose_at, up, failed) at h)))
      | inr (mid, e) ↦
          let (member, is_n) = m.alive id n up in
          let now = ap (λ (r : Simulator × Bool). r.0) (some_inj (rw (propose_at, up, e) at h)) in
          subst (Goes w members c) now (
            one_move w members c sim mid id (Step.propose (c.node id) cmd) member
              (propose id cmd member) (propose-IsSteady (c.node id) cmd).same_peers
              (ap (λ (k : RaftNode). perform w id (Step.propose k cmd) sim) is_n ∙ e) m)
    ]
  ]

  pub propose_command-Goes :
      (c : Cluster) (sim next_sim : Simulator) (cmd : Bytes) (done : Bool)
      → Refines members c sim
      → propose_command w cmd sim ≡ some (next_sim, done)
      → Goes w members c next_sim
  unfolding propose_command
  propose_command-Goes c sim next_sim cmd done m h = elim (Option-cases (find_leader sim.nodes)) [
    | inl no_leader ↦
        let now =
          ap (λ (r : Simulator × Bool). r.0) (some_inj (rw (propose_command, no_leader) at h)) in
        subst (Goes w members c) now (reached c here m)
    | inr (id, leads) ↦
        propose_at-Goes c sim next_sim id cmd done m (rw (propose_command, leads) at h)
  ]

  -- A crash takes no part in the cluster: the node may come back.
  pub crash_node-Refines :
      (c : Cluster) (sim : Simulator) (id : NodeId)
      → Refines members c sim
      → Refines members c (crash_node id sim)
  unfolding crash_node
  crash_node-Refines c sim id m = record {
    alive = λ i n e. elim (Bool-cases (id == i)) [
      | inl h ↦ absurd (some-not-none (sym (rw (get-remove sim.nodes id i, h) at e)))
      | inr h ↦ m.alive i n (rw (get-remove sim.nodes id i, h) at e)
    ];
    flying = m.flying;
    saved = m.saved;
    configured = m.configured;
  }
