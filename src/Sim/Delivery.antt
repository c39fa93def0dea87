-- ===== src/Sim/Delivery.antt =====
-- raft-sim/src/network.rs and the map of nodes of raft-sim/src/simulator.rs: what holds of every
-- message that is sent holds of every message that is in flight or delivered.
use raft_rupee.Base.{
  ℕ, zero, suc, ◌+◌, ◌≡◌, refl, inl, inr, List, [], ◌∷◌, none, some, All, All-append, All-take,
  All-drop, arith, length, get_elem?, leb, ◌==◌, Bool-cases, Option-cases, if◌then◌else◌, take,
  drop, subst, some_inj, add64,
}
use raft_rupee.Types.{NodeId}
use raft_rupee.Message.{Message}
use raft_rupee.Node.State.{RaftNode}
use raft_rupee.Sim.Network.{
  Chance, Peek, ScheduledMessage, SimNetwork, push_message, duplicate, send, remove_at, drain_loop,
  drain_due, draw_delay, is_cut,
}
use raft_rupee.Sim.Simulator.{Nodes, get, insert, remove}

pub get-insert :
    (nodes : Nodes) (id i : NodeId) (n : RaftNode)
    → get (insert nodes id n) i ≡ (if id == i then some n else get nodes i)
unfolding get insert
get-insert [] id i n = refl
get-insert ((k, m) ∷ rest) id i n = ground (arith, get-insert rest id i n)

pub get-remove :
    (nodes : Nodes) (id i : NodeId)
    → get (remove nodes id) i ≡ (if id == i then none else get nodes i)
unfolding get remove
get-remove [] id i = ground arith
get-remove ((k, m) ∷ rest) id i = ground (arith, get-remove rest id i)

module _ (P : Message → Type 0) where
  abbrev pub InFlight : List ScheduledMessage → Type 0
  InFlight = All (λ (m : ScheduledMessage). P m.msg)

  push_message-InFlight :
      (tick : ℕ) (msg : Message) (net : SimNetwork)
      → P msg
      → InFlight net.in_flight
      → InFlight (push_message tick msg net).in_flight
  unfolding push_message
  push_message-InFlight tick msg net p h = (p, h)

  duplicate-InFlight :
      (ch : Chance) (msg : Message) (now delay : ℕ) (net : SimNetwork) (g : ℕ)
      → P msg
      → InFlight net.in_flight
      → InFlight (duplicate ch msg now delay (net, g)).0.in_flight
  unfolding duplicate
  duplicate-InFlight ch msg now delay net g p h =
      elim (Bool-cases (ch.gen_bool net.duplicate_rate g).0) [
        | inl e ↦ rw e (push_message-InFlight _ msg net p h)
        | inr e ↦ rw e h
      ]

  pub send-InFlight :
      (ch : Chance) (msg : Message) (now : ℕ) (net : SimNetwork) (g : ℕ)
      → P msg
      → InFlight net.in_flight
      → InFlight (send ch msg now (net, g)).0.in_flight
  unfolding send
  send-InFlight ch msg now net g p h = elim (Bool-cases (is_cut net.partitions msg.from msg.to)) [
    | inl e ↦ rw e h
    | inr e ↦ elim (Bool-cases (ch.gen_bool net.drop_rate g).0) [
      | inl d ↦ rw (e, d) h
      | inr d ↦
          let delay = draw_delay ch net (ch.gen_bool net.drop_rate g).1 in
          let pushed = push_message-InFlight (add64 now delay.0) msg net p h in
          rw (e, d)
            (duplicate-InFlight ch msg now delay.0 (push_message (add64 now delay.0) msg net)
              delay.1 p pushed)
    ]
  ]

  remove_at-InFlight :
      (i : ℕ) (queue : List ScheduledMessage) → InFlight queue → InFlight (remove_at i queue)
  unfolding remove_at
  remove_at-InFlight i queue h =
      All-append (λ (m : ScheduledMessage). P m.msg) (take i queue) (drop (i + 1) queue)
        (All-take (λ (m : ScheduledMessage). P m.msg) i queue h)
        (All-drop (λ (m : ScheduledMessage). P m.msg) (i + 1) queue h)

  get_elem?-InFlight :
      (queue : List ScheduledMessage) (i : ℕ) (m : ScheduledMessage)
      → InFlight queue
      → get_elem? queue i ≡ some m
      → P m.msg
  get_elem?-InFlight [] i m h e = cc
  get_elem?-InFlight (x ∷ queue) zero m h e =
      subst (λ (y : ScheduledMessage). P y.msg) (some_inj e) h.0
  get_elem?-InFlight (x ∷ queue) (suc i) m h e = get_elem?-InFlight queue i m h.1 e

  drain_loop-InFlight :
      (peek : Peek) (fuel now : ℕ) (queue : List ScheduledMessage)
      → InFlight queue
      → All P (drain_loop peek fuel now queue).0 × InFlight (drain_loop peek fuel now queue).1
  unfolding drain_loop
  drain_loop-InFlight peek zero now queue h = (tt, h)
  drain_loop-InFlight peek (suc fuel) now queue h =
      let i = peek queue in
      elim (Option-cases (get_elem? queue i)) [
        | inl e ↦ rw (e, drain_loop) (tt, h)
        | inr (m, e) ↦ elim (Bool-cases (leb m.delivery_tick now)) [
          | inl due ↦
              let rest =
                drain_loop-InFlight peek fuel now (remove_at i queue)
                  (remove_at-InFlight i queue h) in
              rw (e, due, drain_loop) ((get_elem?-InFlight queue i m h e, rest.0), rest.1)
          | inr wait ↦ rw (e, wait, drain_loop) (tt, h)
        ]
      ]

  pub drain_due-InFlight :
      (peek : Peek) (now : ℕ) (net : SimNetwork)
      → InFlight net.in_flight
      → All P (drain_due peek now net).0 × InFlight (drain_due peek now net).1.in_flight
  unfolding drain_due
  drain_due-InFlight peek now net h =
      drain_loop-InFlight peek (length net.in_flight) now net.in_flight h
