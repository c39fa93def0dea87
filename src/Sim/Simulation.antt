-- ===== src/Sim/Simulation.antt =====
-- raft-sim/src/simulator.rs: a simulation, by what a test does to it one after another: steps, crashes,
-- restarts, proposals and changes of the network.
use raft_rupee.Base.{
  ◌&&◌, true, arith, ℕ, ◌≡◌, refl, sym, ap, inl, inr, List, [], ◌∷◌, Option, none, some, Bool,
  Bool-cases, Option-cases, some_inj, subst, add64,
}
use raft_rupee.Types.{NodeId}
use raft_rupee.Message.{Bytes}
use raft_rupee.Cluster.System.{Cluster, here}
use raft_rupee.Sim.Tracking.{some-not-none}
use raft_rupee.Sim.Network.{SimNetwork, drain_due, partition, heal_all, is_cut}
use raft_rupee.Sim.Delivery.{InFlight, drain_due-InFlight}
use raft_rupee.Sim.Refines.{WasSent, Refines}
use raft_rupee.Sim.Steps.{Goes, reached, Goes-then, deliver_all-Goes}
use raft_rupee.Sim.Runs.{tick_all-Goes, compact_all-Goes, propose_command-Goes, crash_node-Refines}
use raft_rupee.Sim.Spawning.{spawn-Goes}
use raft_rupee.Sim.Invariants.{Verdict}
use raft_rupee.Sim.Terms.{deliveries_in_terms, ticks_in_terms, step_in_terms}
use raft_rupee.Sim.Simulator.{
  World, Simulator, keys, spawn, crash_node, tick_all, deliver_all, move_nodes, checked, step,
  propose_command, network_mut,
}

pub data Command : Type 0 where
  step_once : Command
  crash : (id : NodeId) → Command
  respawn : (id : NodeId) → Command
  propose : (client_cmd : Bytes) → Command
  cut_link : (from to : NodeId) → Command
  heal : Command
  set_rates : (drop_rate duplicate_rate max_delay_ticks : ℕ) → Command

abbrev set_network : ℕ → ℕ → ℕ → SimNetwork → SimNetwork
set_network drop_rate duplicate_rate max_delay_ticks net = record net {
  drop_rate = drop_rate;
  duplicate_rate = duplicate_rate;
  max_delay_ticks = max_delay_ticks;
}

without_answer : Option (Simulator × Bool) → Option Simulator
without_answer none = none
without_answer (some (sim, _)) = some sim

unfoldable pub obey : World → Command → Simulator → Option Simulator
unfolding without_answer
obey w step_once sim = without_answer (step w sim)
obey w (crash id) sim = some (crash_node id sim)
obey w (respawn id) sim = spawn w id sim
obey w (propose client_cmd) sim = without_answer (propose_command w client_cmd sim)
obey w (cut_link from to) sim = some (network_mut (partition from to) sim)
obey w heal sim = some (network_mut heal_all sim)
obey w (set_rates drop dup delay) sim = some (network_mut (set_network drop dup delay) sim)

unfoldable pub run : World → List Command → Simulator → Option Simulator
run w [] sim = some sim
run w (cmd ∷ rest) sim = elim (obey w cmd sim) [ none ↦ none | some next ↦ run w rest next ]

-- Only a step of the simulator ticks and delivers.
unfoldable pub in_terms_for : World → Command → Simulator → Bool
in_terms_for w step_once sim = step_in_terms w sim
in_terms_for w _ sim = true

-- Through a run, as long as it goes on.
unfoldable pub run_in_terms : World → List Command → Simulator → Bool
run_in_terms w [] sim = true
run_in_terms w (cmd ∷ rest) sim =
    in_terms_for w cmd sim
    && (elim (obey w cmd sim) [ none ↦ true | some next ↦ run_in_terms w rest next ])

without_answer-eq-some :
    (o : Option (Simulator × Bool)) (sim : Simulator)
    → without_answer o ≡ some sim
    → (b : Bool) × (o ≡ some (sim, b))
unfolding without_answer
without_answer-eq-some none sim h = cc
without_answer-eq-some (some (s, b)) sim h = (b, cc)

module _ (w : World) (members : List NodeId) where
  move_nodes-Goes :
      (c : Cluster) (sim next_sim : Simulator)
      → Refines members c sim
      → step_in_terms w sim ≡ true
      → move_nodes w sim ≡ some next_sim
      → Goes w members c next_sim
  unfolding move_nodes step_in_terms
  move_nodes-Goes c sim next_sim m ok h =
      let now = add64 sim.tick_count 1 in
      let due = drain_due w.peek now sim.network in
      let start : Simulator = record sim { tick_count = now; network = due.1 } in
      let (arrived, waiting) =
        drain_due-InFlight (WasSent members c) w.peek now sim.network m.flying in
      let begun : Refines members c start = record {
        alive = m.alive;
        flying = waiting;
        saved = m.saved;
        configured = m.configured;
      } in
      elim (Option-cases (deliver_all w due.0 start)) [
        | inl failed ↦ absurd (some-not-none (sym (rw (move_nodes, failed) at h)))
        | inr (delivered, e) ↦
            let both : (deliveries_in_terms w due.0 start
                  && ticks_in_terms w (keys delivered.nodes) delivered)
                ≡ true =
              rw (step_in_terms, e) at ok in
            let arriving : deliveries_in_terms w due.0 start ≡ true = ground arith in
            let ticking : ticks_in_terms w (keys delivered.nodes) delivered ≡ true = ground arith in
            elim (Option-cases (tick_all w (keys delivered.nodes) delivered)) [
              | inl failed ↦ absurd (some-not-none (sym (rw (move_nodes, e, failed) at h)))
              | inr (ticked, f) ↦
                  let compacted = rw (move_nodes, e, f) at h in
                  Goes-then w members c ticked next_sim
                    (Goes-then w members c delivered ticked
                      (deliver_all-Goes w members due.0 c start delivered arrived begun arriving e)
                      (λ d ms k.
                        tick_all-Goes w members (keys delivered.nodes) d delivered ticked k ticking
                          f))
                    (λ d ms k.
                      compact_all-Goes w members (keys ticked.nodes) d ticked next_sim k compacted)
            ]
      ]

  -- The checks change no node.
  checked-Refines :
      (c : Cluster) (sim next_sim : Simulator) (v : Verdict) (passed : Bool)
      → Refines members c sim
      → checked sim v ≡ some (next_sim, passed)
      → Refines members c next_sim
  unfolding checked
  checked-Refines c sim next_sim (Verdict.ok s) passed m h =
      subst (Refines members c) (ap (λ (r : Simulator × Bool). r.0) (some_inj h))
        (record { alive = m.alive; flying = m.flying; saved = m.saved; configured = m.configured })
  checked-Refines c sim next_sim (Verdict.violation s) passed m h =
      subst (Refines members c) (ap (λ (r : Simulator × Bool). r.0) (some_inj h))
        (record { alive = m.alive; flying = m.flying; saved = m.saved; configured = m.configured })
  checked-Refines c sim next_sim Verdict.panic passed m h = cc

  step-Goes :
      (c : Cluster) (sim next_sim : Simulator) (passed : Bool)
      → Refines members c sim
      → step_in_terms w sim ≡ true
      → step w sim ≡ some (next_sim, passed)
      → Goes w members c next_sim
  unfolding step
  step-Goes c sim next_sim passed m ok h = elim (Option-cases (move_nodes w sim)) [
    | inl failed ↦ absurd (some-not-none (sym (rw (step, failed) at h)))
    | inr (moved, e) ↦
        Goes-then w members c moved next_sim (move_nodes-Goes c sim moved m ok e) (λ d ms k.
          reached d here (checked-Refines d moved next_sim _ passed k (rw (step, e) at h)))
  ]

  network_mut-Refines :
      (c : Cluster) (sim : Simulator) (f : SimNetwork → SimNetwork)
      → (f sim.network).in_flight ≡ sim.network.in_flight
      → Refines members c sim
      → Refines members c (network_mut f sim)
  unfolding network_mut
  network_mut-Refines c sim f same m = record {
    alive = m.alive;
    flying = subst (InFlight (WasSent members c)) (sym same) m.flying;
    saved = m.saved;
    configured = m.configured;
  }

  partition-in_flight :
      (from to : NodeId) (net : SimNetwork) → (partition from to net).in_flight ≡ net.in_flight
  unfolding partition
  partition-in_flight from to net = elim (Bool-cases (is_cut net.partitions from to)) [
    | inl e ↦ rw e refl
    | inr e ↦ rw e refl
  ]

  obey-Goes :
      (cmd : Command) (c : Cluster) (sim next_sim : Simulator)
      → Refines members c sim
      → in_terms_for w cmd sim ≡ true
      → obey w cmd sim ≡ some next_sim
      → Goes w members c next_sim
  unfolding obey heal_all in_terms_for
  obey-Goes step_once c sim next_sim m ok h =
      let (passed, e) = without_answer-eq-some (step w sim) next_sim h in
      step-Goes c sim next_sim passed m ok e
  obey-Goes (crash id) c sim next_sim m ok h =
      subst (Goes w members c) (some_inj h)
        (reached c here (crash_node-Refines w members c sim id m))
  obey-Goes (respawn id) c sim next_sim m ok h = spawn-Goes w members c sim next_sim id m h
  obey-Goes (propose cmd) c sim next_sim m ok h =
      let (accepted, e) = without_answer-eq-some (propose_command w cmd sim) next_sim h in
      propose_command-Goes w members c sim next_sim cmd accepted m e
  obey-Goes (cut_link from to) c sim next_sim m ok h = subst (Goes w members c) (some_inj h) (
      reached c here
        (network_mut-Refines c sim (partition from to) (partition-in_flight from to sim.network) m))
  obey-Goes heal c sim next_sim m ok h =
      subst (Goes w members c) (some_inj h)
        (reached c here (network_mut-Refines c sim heal_all refl m))
  obey-Goes (set_rates drop dup delay) c sim next_sim m ok h =
      subst (Goes w members c) (some_inj h)
        (reached c here (network_mut-Refines c sim (set_network drop dup delay) refl m))

  pub run-Goes :
      (cmds : List Command) (c : Cluster) (sim next_sim : Simulator)
      → Refines members c sim
      → run_in_terms w cmds sim ≡ true
      → run w cmds sim ≡ some next_sim
      → Goes w members c next_sim
  unfolding run run_in_terms
  run-Goes [] c sim next_sim m ok h = subst (Goes w members c) (some_inj h) (reached c here m)
  run-Goes (cmd ∷ rest) c sim next_sim m ok h = elim (Option-cases (obey w cmd sim)) [
    | inl failed ↦ absurd (some-not-none (sym (rw (run, failed) at h)))
    | inr (mid, e) ↦
        let both : (in_terms_for w cmd sim && run_in_terms w rest mid) ≡ true =
          rw (run_in_terms, e) at ok in
        Goes-then w members c mid next_sim (obey-Goes cmd c sim mid m (ground arith) e)
          (λ d ms k. run-Goes rest d mid next_sim k (ground arith) (rw (run, e) at h))
  ]
