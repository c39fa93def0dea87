-- ===== src/Sim/Drain.antt =====
-- raft-sim/src/network.rs: `drain_due` delivers the messages that are due, and leaves the others.
use mathlib.Core.List.{Perm}
use mathlib.Core.List.Perm
use raft_rupee.Base.{
  ℕ, zero, suc, ◌+◌, ◌≤◌, ◌<◌, ◌≡◌, refl, sym, ap, ◌∙◌, inl, inr, List, [], ◌∷◌, some, true, false,
  All, arith, length, get_elem?, get_elem?-some, leb, leb-false→lt, Bool-cases, if◌then◌else◌,
  some_inj, subst,
}
use raft_rupee.Message.{Message}
use raft_rupee.Sim.Network.{Peek, ScheduledMessage, SimNetwork, remove_at, drain_loop, drain_due}

-- What is documented of `BinaryHeap::peek`, with the order of the source: one of the earliest.
pub record IsPeek (peek : Peek) : Type 0 where
  pub in_queue : (queue : List ScheduledMessage) → 0 < length queue → peek queue < length queue
  pub earliest :
      (queue : List ScheduledMessage) (m : ScheduledMessage)
      → get_elem? queue (peek queue) ≡ some m
      → All (λ (s : ScheduledMessage). m.delivery_tick ≤ s.delivery_tick) queue

-- The messages whose tick has come, and those whose tick has not.
abbrev pub due : ℕ → List ScheduledMessage → List Message
due now [] = []
due now (s ∷ queue) = if leb s.delivery_tick now then s.msg ∷ due now queue else due now queue

abbrev pub waiting : ℕ → List ScheduledMessage → List ScheduledMessage
waiting now [] = []
waiting now (s ∷ queue) =
    if leb s.delivery_tick now then waiting now queue else s ∷ waiting now queue

module _ (now : ℕ) where
  remove_at-suc :
      (x : ScheduledMessage) (i : ℕ) (queue : List ScheduledMessage)
      → remove_at (suc i) (x ∷ queue) ≡ x ∷ remove_at i queue
  unfolding remove_at
  remove_at-suc x i queue = let e : suc i + 1 ≡ suc (i + 1) = omega arith in rw e refl

  waiting-remove_at :
      (queue : List ScheduledMessage) (i : ℕ) (m : ScheduledMessage)
      → get_elem? queue i ≡ some m
      → leb m.delivery_tick now ≡ true
      → waiting now (remove_at i queue) ≡ waiting now queue
  waiting-remove_at [] i m e h = cc
  waiting-remove_at (x ∷ queue) zero m e h =
      let is_due : leb x.delivery_tick now ≡ true =
        ap (λ (s : ScheduledMessage). leb s.delivery_tick now) (some_inj e) ∙ h in
      rw is_due (unfold remove_at in refl)
  waiting-remove_at (x ∷ queue) (suc i) m e h =
      rw (remove_at-suc x i queue, waiting-remove_at queue i m e h) refl

  due-remove_at :
      (queue : List ScheduledMessage) (i : ℕ) (m : ScheduledMessage)
      → get_elem? queue i ≡ some m
      → leb m.delivery_tick now ≡ true
      → Perm (m.msg ∷ due now (remove_at i queue)) (due now queue)
  due-remove_at [] i m e h = cc
  due-remove_at (x ∷ queue) zero m e h =
      let same : x ≡ m = some_inj e in
      let is_due : leb x.delivery_tick now ≡ true =
        ap (λ (s : ScheduledMessage). leb s.delivery_tick now) same ∙ h in
      rw is_due (
        unfold remove_at in
        subst (λ (s : ScheduledMessage). Perm (s.msg ∷ due now queue) (x.msg ∷ due now queue)) same
          (Perm.refl (x.msg ∷ due now queue)))
  due-remove_at (x ∷ queue) (suc i) m e h =
      let ih = due-remove_at queue i m e h in
      elim (Bool-cases (leb x.delivery_tick now)) [
        | inl d ↦
            rw (remove_at-suc x i queue, d)
              (Perm.trans (Perm.swap x.msg m.msg (due now (remove_at i queue)))
                (Perm.cons x.msg ih))
        | inr d ↦ rw (remove_at-suc x i queue, d) ih
      ]

  length-remove_at :
      (queue : List ScheduledMessage) (i : ℕ)
      → i < length queue
      → length (remove_at i queue) + 1 ≡ length queue
  length-remove_at [] i h = absurd (omega arith)
  length-remove_at (x ∷ queue) zero h = unfold remove_at in omega arith
  length-remove_at (x ∷ queue) (suc i) h =
      rw (remove_at-suc x i queue) (omega (arith, length-remove_at queue i (omega arith)))

  -- Where the earliest is not due, none is.
  none_due :
      (queue : List ScheduledMessage) (t : ℕ)
      → now < t
      → All (λ (s : ScheduledMessage). t ≤ s.delivery_tick) queue
      → (due now queue ≡ []) × (waiting now queue ≡ queue)
  none_due [] t h all = (refl, refl)
  none_due (x ∷ queue) t h (low, all) =
      let not_due : leb x.delivery_tick now ≡ false = ground arith in
      let rest = none_due queue t h all in rw not_due (rest.0, ap (λ q. x ∷ q) rest.1)

  drain_loop_lem :
      (peek : Peek) (fuel : ℕ) (queue : List ScheduledMessage)
      → IsPeek peek
      → length queue ≤ fuel
      → Perm (drain_loop peek fuel now queue).0 (due now queue)
        × ((drain_loop peek fuel now queue).1 ≡ waiting now queue)
  unfolding drain_loop
  drain_loop_lem peek zero [] is_peek h = (Perm.nil, refl)
  drain_loop_lem peek zero (x ∷ queue) is_peek h = absurd (omega arith)
  drain_loop_lem peek (suc fuel) [] is_peek h = (Perm.nil, refl)
  drain_loop_lem peek (suc fuel) (x ∷ rest) is_peek h =
      let queue = x ∷ rest in
      let i = peek queue in
      let within : i < length queue = is_peek.in_queue queue (omega arith) in
      let (m, there) = get_elem?-some queue i within in
      elim (Bool-cases (leb m.delivery_tick now)) [
        | inr later ↦
            let none =
              none_due queue m.delivery_tick (leb-false→lt _ _ later)
                (is_peek.earliest queue m there) in
            rw (there, later, drain_loop) (subst (Perm []) (sym none.0) Perm.nil, sym none.1)
        | inl is_due ↦
            let shorter = length-remove_at queue i within in
            let ih =
              drain_loop_lem peek fuel (remove_at i queue) is_peek (omega (arith, shorter)) in
            rw (there, is_due, drain_loop)
              (
                Perm.trans (Perm.cons m.msg ih.0) (due-remove_at queue i m there is_due),
                ih.1 ∙ waiting-remove_at queue i m there is_due,
              )
      ]

-- With a queue that yields one of its earliest messages, `drain_due` delivers every message whose tick
-- has come, as often as it is in flight, in some order, and leaves exactly the others in flight; the
-- partitions and rates stay. Its loop does not run out of rounds.
pub drain_due_lem :
    (peek : Peek) (now : ℕ) (net : SimNetwork)
    → IsPeek peek
    → Perm (drain_due peek now net).0 (due now net.in_flight)
      × ((drain_due peek now net).1 ≡ record net { in_flight = waiting now net.in_flight })
unfolding drain_due
drain_due_lem peek now net is_peek =
    let r = drain_loop_lem now peek (length net.in_flight) net.in_flight is_peek (omega arith) in
    (r.0, ap (λ (q : List ScheduledMessage). record net { in_flight = q }) r.1)
