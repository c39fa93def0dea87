-- ===== src/Sim/Spawning.antt =====
-- raft-sim/src/simulator.rs: `Simulator::spawn_node` as a restart of Cluster/System.antt.
use raft_rupee.Base.{
  ◌≡◌, ◌⊎◌, refl, sym, ap, ◌∙◌, inl, inr, List, [], ◌∷◌, some, true, ◌==◌, ==_iff, Bool-cases,
  Option-cases, contains, some_inj, subst,
}
use raft_rupee.Types.{NodeId, LogIndex}
use raft_rupee.Log.{RaftLog}
use raft_rupee.Node.State.{RaftNode, Rng, Config, restore}
use raft_rupee.Election.Evidence.{HardState, stored}
use raft_rupee.Cluster.System.{Cluster, update, restart, here, next}
use raft_rupee.Cluster.Moves.{restore-peers}
use raft_rupee.Sim.Disk.{StableDisk, spawn_node}
use raft_rupee.Sim.Tracking.{some-not-none}
use raft_rupee.Sim.Delivery.{get-insert}
use raft_rupee.Sim.Refines.{Refines}
use raft_rupee.Sim.Steps.{Goes, reached}
use raft_rupee.Sim.Simulator.{World, Simulator, find_config, insert, spawn}

List-cases : {A : Type 0} (xs : List A) → (xs ≡ []) ⊎ ((x : A) × (rest : List A) × (xs ≡ x ∷ rest))
List-cases [] = inl refl
List-cases (x ∷ rest) = inr (x, rest, refl)

-- The node is restored from the hard state on the disk, with some log.
spawn_node-restores :
    (r : Rng) (cfg : Config) (d : StableDisk) (n : RaftNode)
    → spawn_node r cfg d ≡ some n
    → (log : RaftLog) × (commit applied : LogIndex) × (restore r cfg d.current_term d.voted_for log
          commit applied
        ≡ some n)
unfolding spawn_node
spawn_node-restores r cfg d n h = elim (List-cases d.log_entries) [
  | inl none_there ↦ absurd (some-not-none (sym (rw (spawn_node, none_there) at h)))
  | inr (base, rest, e) ↦ (_, _, _, rw (spawn_node, e) at h)
]

module _ (w : World) (members : List NodeId) where
  inserted :
      (c : Cluster) (sim : Simulator) (id : NodeId) (n : RaftNode)
      → contains members id ≡ true
      → n.peers ≡ (c.node id).peers
      → Refines members c sim
      → Refines members
          (record c { node = update c.node id n })
          (record sim { nodes = insert sim.nodes id n })
  inserted c sim id n member peers m = record {
    alive = λ i k e. elim (Bool-cases (id == i)) [
      | inl h ↦
          let same : id ≡ i = (==_iff id i).0 h in
          let is_k = some_inj (rw (get-insert sim.nodes id i n, h) at e) in
          (subst (λ j. contains members j ≡ true) same member, rw h is_k)
      | inr h ↦
          let before = m.alive i k (rw (get-insert sim.nodes id i n, h) at e) in
          (before.0, rw h before.1)
    ];
    flying = m.flying;
    saved = m.saved;
    configured = λ i cfg e.
        let before = m.configured i cfg e in
        elim (Bool-cases (id == i)) [
          | inl h ↦
              let same : id ≡ i = (==_iff id i).0 h in
              (before.0, before.1, rw h (before.2 ∙ sym (peers ∙ ap (λ k. (c.node k).peers) same)))
          | inr h ↦ (before.0, before.1, rw h before.2)
        ];
  }

  -- A node comes back from its disk, as a restart of the member.
  pub spawn-Goes :
      (c : Cluster) (sim next_sim : Simulator) (id : NodeId)
      → Refines members c sim
      → spawn w id sim ≡ some next_sim
      → Goes w members c next_sim
  unfolding spawn stored
  spawn-Goes c sim next_sim id m h = elim (Option-cases (find_config sim.node_configs id)) [
    | inl unknown ↦ absurd (some-not-none (sym (rw (spawn, unknown) at h)))
    | inr (cfg, known) ↦ elim (Option-cases (sim.disks id)) [
      | inl no_disk ↦ absurd (some-not-none (sym (rw (spawn, known, no_disk) at h)))
      | inr (d, there) ↦ elim (Option-cases (spawn_node w.node_rng cfg d)) [
        | inl failed ↦ absurd (some-not-none (sym (rw (spawn, known, there, failed) at h)))
        | inr (n, made) ↦
            let (member, is_id, peers) = m.configured id cfg known in
            let (log, commit, applied, e) = spawn_node-restores w.node_rng cfg d n made in
            let from_saved =
              subst (λ (s : HardState). restore w.node_rng cfg s.0 s.1 log commit applied ≡ some n)
                (m.saved id d there) e in
            let same_peers : n.peers ≡ (c.node id).peers =
              restore-peers w.node_rng cfg d.current_term d.voted_for log commit applied n e
              ∙ peers in
            subst (Goes w members c) (some_inj (rw (spawn, known, there, made) at h)) (
              reached (record c { node = update c.node id n })
                (next here (restart id cfg log commit applied member is_id peers from_saved))
                (inserted c sim id n member same_peers m))
      ]
    ]
  ]
