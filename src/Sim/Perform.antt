-- ===== src/Sim/Perform.antt =====
-- raft-sim/src/simulator.rs against the cluster of Cluster/System.antt: a node that moves, and whose
-- actions are carried out.
use raft_rupee.Base.{
  ◌≡◌, sym, ap, ◌∙◌, inl, inr, List, [], ◌++◌, none, some, true, All-mono, ◌==◌, ==_iff, ==_refl,
  Bool-cases, contains, some_inj, subst,
}
use raft_rupee.Types.{NodeId, zero_term}
use raft_rupee.Node.State.{Outcome}
use raft_rupee.Election.Evidence.{stored, stored-append}
use raft_rupee.Cluster.System.{Cluster, after}
use raft_rupee.Sim.Disk.{StableDisk}
use raft_rupee.Sim.Follows.{hard_state_on}
use raft_rupee.Sim.Delivery.{get-insert}
use raft_rupee.Sim.Simulator.{World, Simulator, insert, perform}
use raft_rupee.Sim.Refines.{
  WasSent, WasSent-after, Sent-append_right, Matches, Refines, left_of, process_actions-Matches,
}

module _ (members : List NodeId) where
  -- A node that has moved, before its actions are carried out.
  moved-Matches :
      (c : Cluster) (sim : Simulator) (id : NodeId) (o : Outcome)
      → contains members id ≡ true
      → o.0.peers ≡ (c.node id).peers
      → Refines members c sim
      → Matches members
          (after c id o)
          (record sim { nodes = insert sim.nodes id o.0 })
          (left_of members id o.1)
  moved-Matches c sim id o member peers m = record {
    alive = λ i n e. elim (Bool-cases (id == i)) [
      | inl h ↦
          let same : id ≡ i = (==_iff id i).0 h in
          let is_n = some_inj (rw (get-insert sim.nodes id i o.0, h) at e) in
          (subst (λ k. contains members k ≡ true) same member, rw h is_n)
      | inr h ↦
          let before = m.alive i n (rw (get-insert sim.nodes id i o.0, h) at e) in
          (before.0, rw h before.1)
    ];
    flying =
        All-mono (λ s. WasSent members c s.msg) (λ s. WasSent members (after c id o) s.msg)
          sim.network.in_flight (λ s. WasSent-after members c id o s.msg) m.flying;
    saved = λ i d e. elim (Bool-cases (id == i)) [
      | inl h ↦
          let same : id ≡ i = (==_iff id i).0 h in
          rw h (
            ap (λ s. stored s o.1) (saved_now i d e)
            ∙ sym (stored-append (zero_term, none) (c.sent i) o.1)
            ∙ ap (λ k. stored (zero_term, none) (c.sent k ++ o.1)) (sym same))
      | inr h ↦ rw h (m.saved i d e)
    ];
    configured = λ i cfg e.
        let before = m.configured i cfg e in
        elim (Bool-cases (id == i)) [
          | inl h ↦
              let same : id ≡ i = (==_iff id i).0 h in
              (before.0, before.1, rw h (before.2 ∙ sym (peers ∙ ap (λ k. (c.node k).peers) same)))
          | inr h ↦ (before.0, before.1, rw h before.2)
        ];
  }
    where
      saved_now :
          (i : NodeId) (d : StableDisk)
          → sim.disks i ≡ some d
          → hard_state_on d ≡ stored (zero_term, none) (c.sent i)
      saved_now i d e = unfold stored in m.saved i d e

  none_left :
      (c : Cluster) (sim : Simulator) (id : NodeId)
      → Matches members c sim (left_of members id [])
      → Refines members c sim
  none_left c sim id m = record {
    alive = m.alive;
    flying = m.flying;
    saved = λ i d e. elim (Bool-cases (id == i)) [
      | inl h ↦ rw h at (m.saved i d e)
      | inr h ↦ rw h at (m.saved i d e)
    ];
    configured = m.configured;
  }

  -- A member moves in the simulator as it does in the cluster.
  pub perform-Refines :
      (w : World) (c : Cluster) (sim next : Simulator) (id : NodeId) (o : Outcome)
      → contains members id ≡ true
      → o.0.peers ≡ (c.node id).peers
      → perform w id o sim ≡ some next
      → Refines members c sim
      → Refines members (after c id o) next
  unfolding perform
  perform-Refines w c sim next id o member peers h m = none_left (after c id o) next id (
      process_actions-Matches members w (after c id o)
        (record sim { nodes = insert sim.nodes id o.0 }) next id o.1
        (λ msg s. (id, member, rw (==_refl id) (Sent-append_right msg (c.sent id) o.1 s))) h
        (moved-Matches c sim id o member peers m))
