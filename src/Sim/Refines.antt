-- ===== src/Sim/Refines.antt =====
-- raft-sim/src/simulator.rs against the cluster of Cluster/System.antt: the state of the simulator,
-- and `process_actions` after a move of a node.
use raft_rupee.Base.{
  ◌≡◌, refl, sym, ap, ◌∙◌, inl, inr, List, [], ◌∷◌, ◌++◌, none, some, true, ◌==◌, ==_iff, ==_refl,
  Bool-cases, Option-cases, if◌then◌else◌, contains, some_inj, subst, map_insert, HashMap,
}
use raft_rupee.Types.{NodeId, zero_term}
use raft_rupee.Message.{Message}
use raft_rupee.Node.State.{RaftNode, Config, Action, Outcome}
use raft_rupee.Election.Evidence.{HardState, stored, store_one}
use raft_rupee.Cluster.System.{Cluster, Sent, after}
use raft_rupee.Sim.Disk.{StableDisk, persist}
use raft_rupee.Sim.Tracking.{some-not-none}
use raft_rupee.Sim.Follows.{hard_state_on, persist-hard_state_on}
use raft_rupee.Sim.Delivery.{InFlight, send-InFlight}
use raft_rupee.Sim.Simulator.{
  World, Simulator, get, find_config, write_disk, process_action, process_actions,
}

pub Sent-append_left : (m : Message) (xs ys : List Action) → Sent m xs → Sent m (xs ++ ys)
Sent-append_left m [] ys h = absurd h
Sent-append_left m (a ∷ xs) ys (inl e) = inl e
Sent-append_left m (a ∷ xs) ys (inr h) = inr (Sent-append_left m xs ys h)

pub Sent-append_right : (m : Message) (xs ys : List Action) → Sent m ys → Sent m (xs ++ ys)
Sent-append_right m [] ys h = h
Sent-append_right m (a ∷ xs) ys h = inr (Sent-append_right m xs ys h)

module _ (members : List NodeId) where
  -- A member has sent the message.
  abbrev pub WasSent : Cluster → Message → Type 0
  WasSent c m = (j : NodeId) × (contains members j ≡ true) × Sent m (c.sent j)

  pub WasSent-after :
      (c : Cluster) (i : NodeId) (o : Outcome) (m : Message) → WasSent c m → WasSent (after c i o) m
  WasSent-after c i o m (j, member, s) = (
    j,
    member,
    elim (Bool-cases (i == j)) [
      | inl e ↦
          let same : i ≡ j = (==_iff i j).0 e in
          rw e (Sent-append_left m (c.sent i) o.1 (subst (λ k. Sent m (c.sent k)) (sym same) s))
      | inr e ↦ rw e s
    ],
  )

  -- The simulator against a cluster of members: the nodes that are alive, the messages in flight,
  -- and the disks, on which the actions `left` of each node are still to be carried out.
  pub record Matches (c : Cluster) (sim : Simulator) (left : NodeId → List Action) : Type 0 where
    pub alive :
        (i : NodeId) (n : RaftNode)
        → get sim.nodes i ≡ some n
        → (contains members i ≡ true) × (c.node i ≡ n)
    pub flying : InFlight (WasSent c) sim.network.in_flight
    pub saved :
        (i : NodeId) (d : StableDisk)
        → sim.disks i ≡ some d
        → stored (hard_state_on d) (left i) ≡ stored (zero_term, none) (c.sent i)
    pub configured :
        (i : NodeId) (cfg : Config)
        → find_config sim.node_configs i ≡ some cfg
        → (contains members i ≡ true) × (cfg.id ≡ i) × (cfg.peers ≡ (c.node i).peers)

  abbrev pub nothing_left : NodeId → List Action
  nothing_left i = []

  abbrev pub Refines : Cluster → Simulator → Type 0
  Refines c sim = Matches c sim nothing_left

  -- The actions of one node are still to be carried out.
  abbrev pub left_of : NodeId → List Action → NodeId → List Action
  left_of id actions i = if id == i then actions else []

  -- An action that changes no disk and stores no hard state.
  skip-Matches :
      (c : Cluster) (sim next : Simulator) (id : NodeId) (a : Action) (rest : List Action)
      → ((h : HardState) → store_one h a ≡ h)
      → next.nodes ≡ sim.nodes
      → next.disks ≡ sim.disks
      → next.node_configs ≡ sim.node_configs
      → InFlight (WasSent c) next.network.in_flight
      → Matches c sim (left_of id (a ∷ rest))
      → Matches c next (left_of id rest)
  unfolding stored
  skip-Matches c sim next id a rest idle nodes disks configs flying m = record {
    alive = λ i n e. m.alive i n (ap (λ ns. get ns i) (sym nodes) ∙ e);
    flying = flying;
    saved = λ i d e.
        let before = m.saved i d (ap (λ (f : HashMap StableDisk). f i) (sym disks) ∙ e) in
        elim (Bool-cases (id == i)) [
          | inl h ↦ rw h (ap (λ s. stored s rest) (sym (idle (hard_state_on d))) ∙ rw h at before)
          | inr h ↦ rw h (rw h at before)
        ];
    configured = λ i cfg e. m.configured i cfg (ap (λ cs. find_config cs i) (sym configs) ∙ e);
  }

  written-saved :
      (c : Cluster) (sim : Simulator) (id : NodeId) (a : Action) (rest : List Action)
      (disk written : StableDisk) (i : NodeId) (d : StableDisk)
      → sim.disks id ≡ some disk
      → persist disk a ≡ some written
      → map_insert id written sim.disks i ≡ some d
      → ((k : NodeId) (x : StableDisk)
          → sim.disks k ≡ some x
          → stored (hard_state_on x) (left_of id (a ∷ rest) k)
            ≡ stored (zero_term, none) (c.sent k))
      → stored (hard_state_on d) (left_of id rest i) ≡ stored (zero_term, none) (c.sent i)
  unfolding stored
  written-saved c sim id a rest disk written i d there e at_i saved = elim (Bool-cases (id == i)) [
    | inl h ↦
        let before = rw (==_refl id) at (saved id disk there) in
        let is_d : written ≡ d = some_inj (rw h at at_i) in
        let same : id ≡ i = (==_iff id i).0 h in
        rw h (
          ap (λ x. stored (hard_state_on x) rest) (sym is_d)
          ∙ ap (λ s. stored s rest) (persist-hard_state_on disk written a e)
          ∙ before
          ∙ ap (λ k. stored (zero_term, none) (c.sent k)) same)
    | inr h ↦ rw h (rw h at (saved i d (rw h at at_i)))
  ]

  -- An action that the disk carries out.
  write-Matches :
      (c : Cluster) (sim next : Simulator) (id : NodeId) (a : Action) (rest : List Action)
      → write_disk id a sim ≡ some next
      → Matches c sim (left_of id (a ∷ rest))
      → Matches c next (left_of id rest)
  unfolding write_disk stored
  write-Matches c sim next id a rest h m = elim (Option-cases (sim.disks id)) [
    | inl no_disk ↦ absurd (some-not-none (sym (rw (write_disk, no_disk) at h)))
    | inr (disk, there) ↦ elim (Option-cases (persist disk a)) [
      | inl failed ↦ absurd (some-not-none (sym (rw (write_disk, there, failed) at h)))
      | inr (written, e) ↦
          let now = some_inj (rw (write_disk, there, e) at h) in
          subst (λ s. Matches c s (left_of id rest)) now
            (record {
              alive = m.alive;
              flying = m.flying;
              saved =
                  λ i d at_i. written-saved c sim id a rest disk written i d there e at_i m.saved;
              configured = m.configured;
            })
    ]
  ]

  -- One action, whose message, if it is one, the member has sent.
  process_action-Matches :
      (w : World) (c : Cluster) (sim next : Simulator) (id : NodeId) (a : Action)
      (rest : List Action)
      → ((msg : Message) → a ≡ Action.send msg → WasSent c msg)
      → process_action w id a sim ≡ some next
      → Matches c sim (left_of id (a ∷ rest))
      → Matches c next (left_of id rest)
  unfolding process_action
  process_action-Matches w c sim next id (Action.send msg) rest sent h m =
      let net = sim.network in
      subst (λ s. Matches c s (left_of id rest)) (some_inj h)
        (skip-Matches c sim _ id (Action.send msg) rest (λ s. refl) refl refl refl
          (send-InFlight (WasSent c) w.chance msg sim.tick_count net sim.rng (sent msg refl)
            m.flying)
          m)
  process_action-Matches w c sim next id (Action.append_entries es) rest sent h m =
      write-Matches c sim next id _ rest h m
  process_action-Matches w c sim next id (Action.truncate_and_append i es) rest sent h m =
      write-Matches c sim next id _ rest h m
  process_action-Matches w c sim next id (Action.persist_hard_state t v) rest sent h m =
      write-Matches c sim next id _ rest h m
  process_action-Matches w c sim next id (Action.apply es) rest sent h m =
      subst (λ s. Matches c s (left_of id rest)) (some_inj h)
        (skip-Matches c sim sim id (Action.apply es) rest (λ s. refl) refl refl refl m.flying m)
  process_action-Matches w c sim next id (Action.persist_snapshot i t p) rest sent h m =
      write-Matches c sim next id _ rest h m

  pub process_actions-Matches :
      (w : World) (c : Cluster) (sim next : Simulator) (id : NodeId) (actions : List Action)
      → ((msg : Message) → Sent msg actions → WasSent c msg)
      → process_actions w id actions sim ≡ some next
      → Matches c sim (left_of id actions)
      → Matches c next (left_of id [])
  unfolding process_actions
  process_actions-Matches w c sim next id [] sent h m =
      subst (λ s. Matches c s (left_of id [])) (some_inj h) m
  process_actions-Matches w c sim next id (a ∷ rest) sent h m =
      elim (Option-cases (process_action w id a sim)) [
        | inl failed ↦ absurd (some-not-none (sym (rw (process_actions, failed) at h)))
        | inr (mid, e) ↦
            process_actions-Matches w c mid next id rest (λ msg s. sent msg (inr s))
              (rw (process_actions, e) at h)
              (process_action-Matches w c sim mid id a rest (λ msg is. sent msg (inl is)) e m)
      ]
