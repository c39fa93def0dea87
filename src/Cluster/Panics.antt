-- ===== src/Cluster/Panics.antt =====
-- Panics of the nodes of raft-core/src/node.rs over the moves of a cluster.
use raft_rupee.Base.{
  ◌+◌, ◌<◌, ◌≡◌, inl, inr, List, [], ◌∷◌, Option, some, true, arith, u64_mod, contains, ◌==◌,
  Bool-cases, subst, All, All-append, some_inj,
}
use raft_rupee.Types.{NodeId}
use raft_rupee.Message.{Message, MessageKind}
use raft_rupee.Log
use raft_rupee.Node.State.{RaftNode, Rng, Action, Outcome, Config, new}
use raft_rupee.Node.Step.{is_client_msg, step}
use raft_rupee.Progress.Sound.{IsSound, HasLogRoom, IsSoundKind, IsSoundAction, Progresses}
use raft_rupee.Progress.Entries.{NoPanic}
use raft_rupee.Progress.Steps.{compact_logs-Progresses, propose-Progresses}
use raft_rupee.Progress.Events.{tick-Progresses, step-NoPanic}
use raft_rupee.Cluster.System.{
  Cluster, after, Sent, Move, tick, deliver, request, propose, compact, restart, Reach, start,
  later,
}

pub client-IsSoundKind : (k : MessageKind) → is_client_msg k ≡ true → IsSoundKind k
client-IsSoundKind (MessageKind.client_request _) h = tt
client-IsSoundKind (MessageKind.client_response _ _) h = tt
client-IsSoundKind _ h = absurd (ground arith)

pub Sent-IsSoundKind :
    (m : Message) (xs : List Action) → Sent m xs → All IsSoundAction xs → IsSoundKind m.kind
Sent-IsSoundKind m [] h s = absurd h
Sent-IsSoundKind m (a ∷ xs) (inl e) s = subst IsSoundAction e s.0
Sent-IsSoundKind m (a ∷ xs) (inr h) s = Sent-IsSoundKind m xs h s.1

-- A node that returns an outcome has progressed to that one.
NoPanic-Progresses :
    {n : RaftNode} {x : Option Outcome} {o : Outcome} → NoPanic n x → x ≡ some o → Progresses n o
NoPanic-Progresses {n} (p, e, q) h = subst (Progresses n) (some_inj (rw e at h)) q

pub new-IsSound : (r : Rng) (c : Config) (n : RaftNode) → new r c ≡ some n → IsSound n
unfolding new Log.new
new-IsSound r c n h =
    let (log, commit, applied) = built in
    record {
      log = rw log (record { contiguous = tt; fits = omega arith });
      applied = omega arith;
      fits = omega arith;
    }
  where
    built :
        (n.log ≡ record { sentinel = Log.base_entry 0 0; rest = [] })
        × (n.commit_index ≡ 0)
        × (n.last_applied ≡ 0)
    built = ground arith

module _ (r : Rng) (members : List NodeId) where
  -- What the environment of a member takes care of: a log has room for one more entry before a move,
  -- a compaction stays below the last u64, and a restart is from a sound log and sound indices.
  abbrev pub Behaves : {c d : Cluster} → Move r members c d → Type 0
  Behaves {c} (tick i _ _) = HasLogRoom (c.node i)
  Behaves {c} (deliver i _ _ _ _ _ _ _ _) = HasLogRoom (c.node i)
  Behaves {c} (request i _ _ _ _ _) = HasLogRoom (c.node i)
  Behaves {c} (propose i _ _) = HasLogRoom (c.node i)
  Behaves (compact _ index _ _ _) = index + 1 < u64_mod
  Behaves (restart _ _ _ _ _ {n} _ _ _ _) = IsSound n

  abbrev pub Behaved : {c : Cluster} → Reach r members c → Type 0
  Behaved (start _) = Unit {0}
  Behaved (later reach move) = Behaved reach × Behaves move

  abbrev pub AllSound : Cluster → Type 0
  AllSound c =
      (i : NodeId) → contains members i ≡ true → IsSound (c.node i) × All IsSoundAction (c.sent i)

  after-AllSound :
      (c : Cluster) (i : NodeId) (o : Outcome)
      → contains members i ≡ true
      → Progresses (c.node i) o
      → AllSound c
      → AllSound (after c i o)
  after-AllSound c i o known p all j there = elim (Bool-cases (i == j)) [
    | inl same ↦ rw same (p.sound, All-append IsSoundAction (c.sent i) o.1 (all i known).1 p.sends)
    | inr other ↦ rw other (all j there)
  ]

  Move-AllSound : {c d : Cluster} (m : Move r members c d) → Behaves m → AllSound c → AllSound d
  Move-AllSound {c} (tick i known _) b all =
      after-AllSound c i _ known (tick-Progresses r (c.node i) (all i known).0 b) all
  Move-AllSound {c} (deliver i j msg {o} known there sent _ _ e) b all =
      after-AllSound c i o known
        (NoPanic-Progresses
          (step-NoPanic r (c.node i) msg (all i known).0 b
            (Sent-IsSoundKind msg (c.sent j) sent (all j there).1))
          e)
        all
  Move-AllSound {c} (request i msg {o} known client _ e) b all =
      after-AllSound c i o known
        (NoPanic-Progresses
          (step-NoPanic r (c.node i) msg (all i known).0 b (client-IsSoundKind msg.kind client)) e)
        all
  Move-AllSound {c} (propose i command known) b all =
      after-AllSound c i _ known (propose-Progresses (c.node i) command (all i known).0 b) all
  Move-AllSound {c} (compact i index t payload known) b all =
      after-AllSound c i _ known
        (compact_logs-Progresses (c.node i) index t payload (all i known).0 b) all
  Move-AllSound {c} (restart i _ _ _ _ {n} known _ _ _) b all = λ j there.
      elim (Bool-cases (i == j)) [
        | inl same ↦ rw same (b, (all j there).1)
        | inr other ↦ rw other (all j there)
      ]

  pub Reach-AllSound : {c : Cluster} (reach : Reach r members c) → Behaved reach → AllSound c
  Reach-AllSound {c} (start s) b = λ i known.
      let (cfg, e, _, _) = s.fresh i known in (new-IsSound r cfg (c.node i) e, rw (s.silent i) tt)
  Reach-AllSound (later reach move) b = Move-AllSound move b.1 (Reach-AllSound reach b.0)

  -- In a cluster of members that was reached by moves that left room in the logs and restarted from
  -- sound logs only, a member whose log has room for one more entry handles every message that a
  -- member has sent, at any time and in any order: `step` returns, lowers neither its commit index
  -- nor its last applied index, keeps the log well formed, and sends sound messages only.
  pub no_panic :
      (c : Cluster) (i j : NodeId) (msg : Message) (reach : Reach r members c)
      → Behaved reach
      → contains members i ≡ true
      → contains members j ≡ true
      → Sent msg (c.sent j)
      → HasLogRoom (c.node i)
      → NoPanic (c.node i) (step r (c.node i) msg)
  no_panic c i j msg reach b mi mj sent room =
      let all = Reach-AllSound reach b in
      step-NoPanic r (c.node i) msg (all i mi).0 room
        (Sent-IsSoundKind msg (c.sent j) sent (all j mj).1)
