-- ===== src/Liveness/Timer.antt =====
-- The election timer of `tick` in raft-core/src/node.rs, over any number of ticks.
use raft_rupee.Base.{
  ℕ, zero, suc, ◌+◌, ◌<◌, ◌≡◌, refl, true, false, arith, u64_mod, leb, add64, add64_of_lt,
  append-nil, ltb, ltb→lt, ltb-false→le, ◌≤◌, Bool-cases, inl, inr, if◌then◌else◌,
}
use raft_rupee.Node.State.{RaftNode, Rng, Outcome, done, ◌▷◌, is_leader}
use raft_rupee.Node.Election.{start_pre_vote}
use raft_rupee.Node.Step.{tick}

module _ (r : Rng) where
  -- The clock ticks `k` times, and nothing else happens.
  unfoldable pub ticks : ℕ → RaftNode → Outcome
  ticks zero n = done n
  ticks (suc k) n = tick r n ▷ ticks k

  tick_waits :
      (n : RaftNode)
      → is_leader n.role ≡ false
      → n.election_timeout < u64_mod
      → n.election_elapsed + 1 < n.election_timeout
      → tick r n ≡ done (record n { election_elapsed = n.election_elapsed + 1 })
  unfolding tick
  tick_waits n f fits lt =
      let e : add64 n.election_elapsed 1 ≡ n.election_elapsed + 1 =
        add64_of_lt n.election_elapsed 1 (omega arith) in
      let t : leb n.election_timeout (n.election_elapsed + 1) ≡ false = ground (arith, lt) in
      rw (f, e, t) refl

  tick_fires :
      (n : RaftNode)
      → is_leader n.role ≡ false
      → n.election_timeout < u64_mod
      → n.election_elapsed + 1 ≡ n.election_timeout
      → tick r n ≡ start_pre_vote r (record n { election_elapsed = 0 })
  unfolding tick
  tick_fires n f fits at =
      let e : add64 n.election_elapsed 1 ≡ n.election_elapsed + 1 =
        add64_of_lt n.election_elapsed 1 (omega arith) in
      let t : leb n.election_timeout (n.election_elapsed + 1) ≡ true = ground (arith, at) in
      rw (f, e, t) refl

  ticks_wait :
      (k : ℕ) (n : RaftNode)
      → is_leader n.role ≡ false
      → n.election_timeout < u64_mod
      → n.election_elapsed + k < n.election_timeout
      → ticks k n ≡ done (record n { election_elapsed = n.election_elapsed + k })
  unfolding ticks ◌▷◌
  ticks_wait zero n f fits lt =
      let e : n.election_elapsed + 0 ≡ n.election_elapsed = omega arith in rw e refl
  ticks_wait (suc k) n f fits lt =
      let e : n.election_elapsed + 1 + k ≡ n.election_elapsed + suc k = omega arith in
      let one : n.election_elapsed + 1 < n.election_timeout = omega (arith, lt) in
      let rest =
        ticks_wait k (record n { election_elapsed = n.election_elapsed + 1 }) f fits
          (omega (arith, lt)) in
      rw (tick_waits n f fits one) (rw e at rest)

  ticks_fire :
      (k : ℕ) (n : RaftNode)
      → is_leader n.role ≡ false
      → n.election_timeout < u64_mod
      → n.election_elapsed + suc k ≡ n.election_timeout
      → ticks (suc k) n ≡ start_pre_vote r (record n { election_elapsed = 0 })
  unfolding ticks ◌▷◌
  ticks_fire zero n f fits at =
      let fire : tick r n ≡ start_pre_vote r (record n { election_elapsed = 0 }) =
        tick_fires n f fits at in
      rw (fire, append-nil (start_pre_vote r (record n { election_elapsed = 0 })).1) refl
  ticks_fire (suc k) n f fits at =
      let one : n.election_elapsed + 1 < n.election_timeout = omega (arith, at) in
      rw (tick_waits n f fits one) (
        ticks_fire k (record n { election_elapsed = n.election_elapsed + 1 }) f fits
          (omega (arith, at)))

  -- A node that does not lead, whose count of ticks is below its timeout, and to which nothing but
  -- the clock happens, does nothing but count until the tick that brings the count to the timeout;
  -- with that tick it starts a pre-vote, its count at 0.
  pub ticks_lem :
      (k : ℕ) (n : RaftNode)
      → is_leader n.role ≡ false
      → n.election_timeout < u64_mod
      → n.election_elapsed < n.election_timeout
      → n.election_elapsed + k ≤ n.election_timeout
      → ticks k n ≡ (
          if ltb (n.election_elapsed + k) n.election_timeout
          then done (record n { election_elapsed = n.election_elapsed + k })
          else start_pre_vote r (record n { election_elapsed = 0 }))
  ticks_lem zero n f fits below up =
      let e : ltb (n.election_elapsed + 0) n.election_timeout ≡ true = ground (arith, below) in
      rw e (ticks_wait zero n f fits (omega (arith, below)))
  ticks_lem (suc k) n f fits below up =
      elim (Bool-cases (ltb (n.election_elapsed + suc k) n.election_timeout)) [
        | inl waits ↦ rw waits (ticks_wait (suc k) n f fits (ltb→lt _ _ waits))
        | inr fires ↦ rw fires (ticks_fire k n f fits (omega (arith, ltb-false→le _ _ fires, up)))
      ]
