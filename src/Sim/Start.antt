-- ===== src/Sim/Start.antt =====
-- raft-sim/src/simulator.rs: `Simulator::new`, whose nodes are those of a cluster that starts.
use raft_rupee.Base.{
  ℕ, zero, suc, ◌+◌, ◌≤◌, ◌<◌, ◌≡◌, refl, sym, ap, ◌∙◌, inl, inr, List, [], ◌∷◌, map, some, true,
  ◌&&◌, arith, length, ltb, leb, ◌==◌, ==_iff, Bool-cases, some_inj, contains,
}
use raft_rupee.Types.{NodeId}
use raft_rupee.Log
use raft_rupee.Node.State.{Rng, Config, restore, new}
use raft_rupee.Sim.Disk
use raft_rupee.Sim.Disk.{StableDisk}
use raft_rupee.Sim.Network.{Chance}
use raft_rupee.Sim.Construction.{ids_from, other_ids, new_config, new_configs, new_disks}
use raft_rupee.Sim.Simulator.{find_config}

pub contains-ids_from : (i n k : ℕ) → contains (ids_from i n) k ≡ (leb i k && ltb k (i + n))
unfolding contains ids_from
contains-ids_from i zero k = ground arith
contains-ids_from i (suc n) k = ground (arith, contains-ids_from (i + 1) n k)

pub length-ids_from : (i n : ℕ) → length (ids_from i n) ≡ n
unfolding ids_from
length-ids_from i zero = refl
length-ids_from i (suc n) = omega (arith, length-ids_from (i + 1) n)

-- Of a range the others are all but one, or all.
other_ids-before : (i n k : ℕ) → k < i → length (other_ids k (ids_from i n)) ≡ n
unfolding other_ids ids_from
other_ids-before i zero k h = refl
other_ids-before i (suc n) k h = ground (arith, other_ids-before (i + 1) n k)

pub length-other_ids : (i n k : ℕ) → i ≤ k → k < i + n → length (other_ids k (ids_from i n)) + 1 ≡ n
unfolding other_ids ids_from
length-other_ids i zero k h l = absurd (omega arith)
length-other_ids i (suc n) k h l =
    ground (arith, length-other_ids (i + 1) n k, other_ids-before (i + 1) n k)

pub new_disks-new :
    (ids : List NodeId) (i : NodeId) (d : StableDisk) → new_disks ids i ≡ some d → d ≡ Disk.new i
unfolding new_disks
new_disks-new [] i d h = cc
new_disks-new (id ∷ rest) i d h = elim (Bool-cases (id == i)) [
  | inl e ↦ sym (some_inj (rw e at h)) ∙ ap Disk.new ((==_iff id i).0 e)
  | inr e ↦ new_disks-new rest i d (rw e at h)
]

pub find_config-new_configs :
    (ch : Chance) (node_ids ids : List NodeId) (g i : ℕ) (cfg : Config)
    → find_config (new_configs ch node_ids ids g).0 i ≡ some cfg
    → (contains ids i ≡ true) × (cfg.id ≡ i) × (cfg.peers ≡ other_ids i node_ids)
unfolding find_config new_configs new_config contains
find_config-new_configs ch node_ids [] g i cfg h = cc
find_config-new_configs ch node_ids (id ∷ rest) g i cfg h = elim (Bool-cases (id == i)) [
  | inl e ↦
      let same : id ≡ i = (==_iff id i).0 e in
      let is_cfg = some_inj (rw e at h) in
      (
        rw e refl,
        sym (ap (λ (c : Config). c.id) is_cfg) ∙ same,
        sym (ap (λ (c : Config). c.peers) is_cfg) ∙ ap (λ k. other_ids k node_ids) same,
      )
  | inr e ↦ rw e (find_config-new_configs ch node_ids rest _ i cfg (rw e at h))
]

pub config_ids :
    (ch : Chance) (node_ids ids : List NodeId) (g : ℕ)
    → map (λ (c : Config). c.id) (new_configs ch node_ids ids g).0 ≡ ids
unfolding new_configs new_config
config_ids ch node_ids [] g = refl
config_ids ch node_ids (id ∷ rest) g = ap (λ l. id ∷ l) (config_ids ch node_ids rest _)

-- A node that is restored from a new disk is a new node.
pub spawn_node-new :
    (r : Rng) (cfg : Config) (id : NodeId) → Disk.spawn_node r cfg (Disk.new id) ≡ new r cfg
unfolding Disk.spawn_node Disk.new restore new Log.new Log.restore
spawn_node-new r cfg id =
    elim (Bool-cases (ltb cfg.heartbeat_interval_ticks cfg.election_timeout_ticks)) [
      | inl e ↦ rw e refl
      | inr e ↦ rw e refl
    ]
