-- ===== src/Sim/Started.antt =====
-- raft-sim/src/simulator.rs: the nodes that `Simulator::new` spawns, and the cluster that they are.
use raft_rupee.Base.{
  ◌≡◌, ◌⊎◌, refl, sym, ap, ◌∙◌, inl, inr, List, [], ◌∷◌, map, some, true, arith, ◌==◌, ==_iff,
  Bool-cases, Option-cases, some_inj, subst, contains, HashMap,
}
use raft_rupee.Types.{NodeId}
use raft_rupee.Node.State.{RaftNode, Config, new}
use raft_rupee.Sim.Disk
use raft_rupee.Sim.Disk.{StableDisk}
use raft_rupee.Sim.Tracking.{some-not-none}
use raft_rupee.Sim.Delivery.{get-insert}
use raft_rupee.Sim.Start.{spawn_node-new}
use raft_rupee.Sim.Construction.{spawn_all}
use raft_rupee.Sim.Simulator.{World, Simulator, get, insert, find_config, spawn}

-- Every node that is alive is new from its configuration; all else is as it was.
pub record IsFresh (w : World) (base sim : Simulator) : Type 0 where
  pub built :
      (i : NodeId) (n : RaftNode)
      → get sim.nodes i ≡ some n
      → (cfg : Config) × (find_config base.node_configs i ≡ some cfg)
        × (new w.node_rng cfg ≡ some n)
  pub configs : sim.node_configs ≡ base.node_configs
  pub disks : sim.disks ≡ base.disks
  pub network : sim.network ≡ base.network

abbrev pub IsUp : Simulator → NodeId → Type 0
IsUp sim i = (n : RaftNode) × (get sim.nodes i ≡ some n)

module _ (w : World) (base : Simulator)
    (new_only : (i : NodeId) (d : StableDisk) → base.disks i ≡ some d → d ≡ Disk.new i) where
  -- The parts of a spawn that succeeds.
  spawn-parts :
      (sim next : Simulator) (id : NodeId)
      → IsFresh w base sim
      → spawn w id sim ≡ some next
      → (cfg : Config) × (n : RaftNode) × (find_config base.node_configs id ≡ some cfg)
        × (new w.node_rng cfg ≡ some n)
        × (record sim { nodes = insert sim.nodes id n } ≡ next)
  unfolding spawn
  spawn-parts sim next id fresh h = elim (Option-cases (find_config sim.node_configs id)) [
    | inl unknown ↦ absurd (some-not-none (sym (rw (spawn, unknown) at h)))
    | inr (cfg, known) ↦ elim (Option-cases (sim.disks id)) [
      | inl no_disk ↦ absurd (some-not-none (sym (rw (spawn, known, no_disk) at h)))
      | inr (d, there) ↦ elim (Option-cases (Disk.spawn_node w.node_rng cfg d)) [
        | inl failed ↦ absurd (some-not-none (sym (rw (spawn, known, there, failed) at h)))
        | inr (n, made) ↦
            let is_new : d ≡ Disk.new id =
              new_only id d (ap (λ (f : HashMap StableDisk). f id) (sym fresh.disks) ∙ there) in
            (
              cfg,
              n,
              ap (λ cs. find_config cs id) (sym fresh.configs) ∙ known,
              sym (spawn_node-new w.node_rng cfg id)
                  ∙ ap (Disk.spawn_node w.node_rng cfg) (sym is_new)
                  ∙ made,
              some_inj (rw (spawn, known, there, made) at h),
            )
      ]
    ]
  ]

  spawn-IsFresh :
      (sim next : Simulator) (id : NodeId)
      → IsFresh w base sim
      → spawn w id sim ≡ some next
      → IsFresh w base next
  spawn-IsFresh sim next id fresh h =
      let (cfg, n, known, made, e) = spawn-parts sim next id fresh h in
      subst (IsFresh w base) e (record {
        built = λ i k there. elim (Bool-cases (id == i)) [
          | inl same ↦
              let is_i : id ≡ i = (==_iff id i).0 same in
              let is_k : n ≡ k = some_inj (rw (get-insert sim.nodes id i n, same) at there) in
              (cfg, ap (find_config base.node_configs) (sym is_i) ∙ known, made ∙ ap some is_k)
          | inr other ↦ fresh.built i k (rw (get-insert sim.nodes id i n, other) at there)
        ];
        configs = fresh.configs;
        disks = fresh.disks;
        network = fresh.network;
      })

  spawn-IsUp :
      (sim next : Simulator) (id i : NodeId)
      → IsFresh w base sim
      → spawn w id sim ≡ some next
      → (id ≡ i) ⊎ IsUp sim i
      → IsUp next i
  spawn-IsUp sim next id i fresh h up =
      let (cfg, n, known, made, e) = spawn-parts sim next id fresh h in
      subst (λ s. IsUp s i) e
        (elim (Bool-cases (id == i)) [
          | inl same ↦ (n, rw (get-insert sim.nodes id i n, same) refl)
          | inr other ↦ elim up [
            | inl same ↦ absurd (ground (arith, same))
            | inr (k, there) ↦ (k, rw (get-insert sim.nodes id i n, other) there)
          ]
        ])

  pub spawn_all-IsFresh :
      (configs : List Config) (sim next : Simulator)
      → IsFresh w base sim
      → spawn_all w configs sim ≡ some next
      → IsFresh w base next
        × ((i : NodeId)
            → (contains (map (λ (c : Config). c.id) configs) i ≡ true) ⊎ IsUp sim i
            → IsUp next i)
  unfolding spawn_all contains
  spawn_all-IsFresh [] sim next fresh h = (
    subst (IsFresh w base) (some_inj h) fresh,
    λ i up. elim up [
      | inl absent ↦ absurd (ground (arith, absent))
      | inr is_up ↦ subst (λ s. IsUp s i) (some_inj h) is_up
    ],
  )
  spawn_all-IsFresh (cfg ∷ rest) sim next fresh h = elim (Option-cases (spawn w cfg.id sim)) [
    | inl failed ↦ absurd (some-not-none (sym (rw (spawn_all, failed) at h)))
    | inr (mid, e) ↦
        let (fresh', ups) =
          spawn_all-IsFresh rest mid next (spawn-IsFresh sim mid cfg.id fresh e)
            (rw (spawn_all, e) at h) in
        (
          fresh',
          λ i up. elim up [
            | inr is_up ↦ ups i (inr (spawn-IsUp sim mid cfg.id i fresh e (inr is_up)))
            | inl listed ↦ elim (Bool-cases (cfg.id == i)) [
              | inl same ↦
                  ups i (inr (spawn-IsUp sim mid cfg.id i fresh e (inl ((==_iff cfg.id i).0 same))))
              | inr other ↦ ups i (inl (rw other at listed))
            ]
          ],
        )
  ]
