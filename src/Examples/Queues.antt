-- ===== src/Examples/Queues.antt =====
-- The theorem on the deliveries of raft-sim/src/network.rs at a concrete queue, whose `peek` yields
-- the first of the earliest messages.
use mathlib.Core.List.{Perm}
use raft_rupee.Base.{
  ℕ, suc, ◌≤◌, ◌<◌, ◌≡◌, inl, inr, List, [], ◌∷◌, none, some, Option, All, All-mono, arith, length,
  get_elem?, get_elem?-some, sym, ◌∙◌, if◌then◌else◌, leb, leb→le, leb-false→lt, Bool-cases,
  some_inj, subst,
}
use raft_rupee.Sim.Network.{Peek, ScheduledMessage, SimNetwork, drain_due}
use raft_rupee.Sim.Drain.{IsPeek, drain_due_lem}
use raft_rupee.Examples.Wires.{note}

-- The position of the earlier of a message and the earliest of the others.
unfoldable earlier : ScheduledMessage → ℕ → Option ScheduledMessage → ℕ
earlier s i none = 0
earlier s i (some m) = if leb s.delivery_tick m.delivery_tick then 0 else suc i

unfoldable first_earliest : Peek
first_earliest [] = 0
first_earliest (s ∷ queue) = let i = first_earliest queue in earlier s i (get_elem? queue i)

earlier_le : (s : ScheduledMessage) (i : ℕ) (o : Option ScheduledMessage) → earlier s i o ≤ suc i
unfolding earlier
earlier_le s i none = omega arith
earlier_le s i (some m) = ground arith

first_earliest-in_queue :
    (queue : List ScheduledMessage) → 0 < length queue → first_earliest queue < length queue
unfolding first_earliest
first_earliest-in_queue [] h = h
first_earliest-in_queue (s ∷ []) h = unfold earlier in h
first_earliest-in_queue (s ∷ t ∷ queue) h =
    let i = first_earliest (t ∷ queue) in
    omega (
      arith,
      first_earliest-in_queue (t ∷ queue) (omega arith),
      earlier_le s i (get_elem? (t ∷ queue) i),
    )

abbrev NotBefore : ScheduledMessage → ScheduledMessage → Type 0
NotBefore m s = m.delivery_tick ≤ s.delivery_tick

first_earliest-earliest :
    (queue : List ScheduledMessage) (m : ScheduledMessage)
    → get_elem? queue (first_earliest queue) ≡ some m
    → All (NotBefore m) queue
unfolding first_earliest
first_earliest-earliest [] m e = tt
first_earliest-earliest (s ∷ []) m e =
    unfold earlier in subst (λ m. All (NotBefore m) (s ∷ [])) (some_inj e) (omega arith, tt)
first_earliest-earliest (s ∷ t ∷ queue) m e =
    let others = t ∷ queue in
    let i = first_earliest others in
    let (o, there) = get_elem?-some others i (first_earliest-in_queue others (omega arith)) in
    let least = first_earliest-earliest (t ∷ queue) o there in
    let found : get_elem? (s ∷ others) (if leb s.delivery_tick o.delivery_tick then 0 else suc i)
        ≡ some m =
      unfold earlier in rw there at e in
    elim (Bool-cases (leb s.delivery_tick o.delivery_tick)) [
      | inl before ↦
          let this : some s ≡ some m = rw before at found in
          subst (λ m. All (NotBefore m) (s ∷ others)) (some_inj this)
            (
              omega arith,
              All-mono (NotBefore o) (NotBefore s) others
                  (λ x later. omega (arith, later, leb→le _ _ before)) least,
            )
      | inr after ↦
          let that : get_elem? others i ≡ some m = rw after at found in
          subst (λ m. All (NotBefore m) (s ∷ others)) (some_inj (sym there ∙ that))
            (omega (arith, leb-false→lt _ _ after), least)
    ]

first_earliest-IsPeek : IsPeek first_earliest
first_earliest-IsPeek = record {
  in_queue = first_earliest-in_queue;
  earliest = first_earliest-earliest;
}

-- At tick 5, messages of ticks 4, 9, 2 and 5 are in flight.
abbrev network : SimNetwork
network = record {
  in_flight =
      record { delivery_tick = 4; msg = note 2 1 }
      ∷ record { delivery_tick = 9; msg = note 2 2 }
      ∷ record { delivery_tick = 2; msg = note 2 3 }
      ∷ record { delivery_tick = 5; msg = note 2 4 }
      ∷ [];
  partitions = [];
  drop_rate = 0;
  duplicate_rate = 0;
  max_delay_ticks = 3;
}

drain_due_lem_example :
    Perm (drain_due first_earliest 5 network).0 (note 2 1 ∷ note 2 3 ∷ note 2 4 ∷ [])
    × ((drain_due first_earliest 5 network).1
        ≡ record network { in_flight = record { delivery_tick = 9; msg = note 2 2 } ∷ [] })
drain_due_lem_example = drain_due_lem first_earliest 5 network first_earliest-IsPeek
