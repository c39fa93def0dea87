-- ===== src/Cluster/Matching.antt =====
-- The logs of a cluster of nodes of raft-core/src/node.rs against one another.
use raft_rupee.Base.{suc, ◌+◌, ◌≤◌, ◌<◌, ◌≡◌, ◌⊎◌, ap, ◌∙◌, List, some, true, arith, contains}
use raft_rupee.Types.{Term, LogIndex, NodeId}
use raft_rupee.Log.{entry_at, term_at}
use raft_rupee.Node.State.{Rng, Action}
use raft_rupee.Election.Evidence.{HardState}
use raft_rupee.Cluster.System.{
  Cluster, Move, tick, deliver, request, propose, compact, restart, Reach, start, later,
}
use raft_rupee.Cluster.Moves.{Reach-Invariant, restore-idle}
use raft_rupee.Cluster.Panics.{
  Behaves, Behaved, AllSound, Reach-AllSound, Sent-IsSoundKind, client-IsSoundKind,
}
use raft_rupee.Cluster.Ledgers.{LinkedAction-Extends, Ruled}
use raft_rupee.Cluster.Entering.{silent-Ruled, move-Ruled}
use raft_rupee.Ledger.Chain.{Ledger}
use raft_rupee.Ledger.Events.{compact_logs-Lawful, propose-Lawful}
use raft_rupee.Ledger.Steps.{tick-Lawful, step-Lawful}
use raft_rupee.Ledger.Match.{matching_below}
use raft_rupee.Cluster.Starts.{
  Sent-LinkedKind, client-LinkedKind, compact_logs-enters, compact_logs-last_index, restore-log,
  restart-Ruled, Starts-Ruled,
}

module _ (r : Rng) (members : List NodeId) where
  -- What the driver of a member takes care of: a compaction has the term of its slot, or is not
  -- above the base, and a restart is from the log that the node had.
  abbrev pub KeepsLog : {c d : Cluster} → Move r members c d → Type 0
  KeepsLog {c} (compact i index term _ _) =
      (index ≤ (c.node i).log.sentinel.index) ⊎ (term_at (c.node i).log index ≡ some term)
  KeepsLog {c} (restart i _ log _ _ _ _ _ _) = log ≡ (c.node i).log
  KeepsLog _ = Unit {0}

  abbrev pub KeptLogs : {c : Cluster} → Reach r members c → Type 0
  KeptLogs (start _) = Unit {0}
  KeptLogs (later reach move) = KeptLogs reach × KeepsLog move

  Move-Ruled :
      (k : Ledger) {c d : Cluster} (m : Move r members c d)
      → Reach r members c
      → Behaves r members m
      → KeepsLog m
      → AllSound r members c
      → Ruled r members k c
      → (k' : Ledger) × Ruled r members k' d
  Move-Ruled k {c} (tick i known room) reach b kept all u =
      let m = tick i known room in
      move-Ruled r members k c i _ u known m (later reach m)
        (λ k' _. tick-Lawful k' r (c.node i) room) b
  Move-Ruled k {c} (deliver i j msg {o} known there sent to room e) reach b kept all u =
      let m = deliver i j msg known there sent to room e in
      let linked = Sent-LinkedKind k msg (c.sent j) sent (u.logs j there).1 in
      move-Ruled r members k c i o u known m (later reach m)
        (λ k' x.
          step-Lawful k' r (c.node i) msg room b (all i known).0.log
            (Sent-IsSoundKind msg (c.sent j) sent (all j there).1)
            (LinkedAction-Extends k k' x (Action.send msg) linked) e)
        b
  Move-Ruled k {c} (request i msg {o} known client room e) reach b kept all u =
      let m = request i msg known client room e in
      move-Ruled r members k c i o u known m (later reach m)
        (λ k' _.
          step-Lawful k' r (c.node i) msg room b (all i known).0.log
            (client-IsSoundKind msg.kind client) (client-LinkedKind k' msg.kind client) e)
        b
  Move-Ruled k {c} (propose i command known) reach b kept all u =
      let m = propose i command known in
      move-Ruled r members k c i _ u known m (later reach m)
        (λ k' _. propose-Lawful k' (c.node i) command b) b
  Move-Ruled k {c} (compact i index t payload known) reach b kept all u =
      let m = compact i index t payload known in
      silent-Ruled r members k c i _ u known m (later reach m)
        (compact_logs-Lawful k (c.node i) index t payload kept
          (compact_logs-last_index (c.node i) index t payload (all i known).0.log b))
        (compact_logs-enters (c.node i) index t payload)
  Move-Ruled k {c} (restart i cfg log commit applied {n} known id peers e) reach b kept all u =
      let m = restart i cfg log commit applied known id peers e in
      let (idle, term) = restore-idle r cfg _ _ log commit applied n e in
      let saved = (Reach-Invariant r members reach i known).saved in
      (
        k,
        restart-Ruled r members k c i n u m (idle, term ∙ ap (λ (s : HardState). s.0) saved)
            (restore-log r cfg _ _ log commit applied n e ∙ kept),
      )

  Reach-Ruled :
      {c : Cluster} (reach : Reach r members c)
      → Behaved r members reach
      → KeptLogs reach
      → (k : Ledger) × Ruled r members k c
  Reach-Ruled (start s) b kept = (_, Starts-Ruled r members s)
  Reach-Ruled (later reach move) b kept =
      let (k, u) = Reach-Ruled reach b.0 kept.0 in
      Move-Ruled k move reach b.1 kept.1 (Reach-AllSound r members reach b.0) u

  -- Take a cluster of members that was reached by moves that left room in the logs, in which a
  -- compaction is below the last u64 and has the term of its slot or is not above the base, and a
  -- restart keeps the term, the vote and the log, from sound indices; messages may be lost, repeated,
  -- delayed or reordered. Two members whose logs have the same term in a slot have the same terms and
  -- the same entries in all slots below it, and the same entry in it, as far down as both logs go.
  pub log_matching :
      (c : Cluster) (i j : NodeId) (slot top : LogIndex) (t : Term) (reach : Reach r members c)
      → Behaved r members reach
      → KeptLogs reach
      → contains members i ≡ true
      → contains members j ≡ true
      → term_at (c.node i).log top ≡ some t
      → term_at (c.node j).log top ≡ some t
      → (c.node i).log.sentinel.index ≤ slot
      → (c.node j).log.sentinel.index ≤ slot
      → slot < top
      → (term_at (c.node i).log slot ≡ term_at (c.node j).log slot)
        × (entry_at (c.node i).log (slot + 1) ≡ entry_at (c.node j).log (slot + 1))
  log_matching c i j slot top t reach b kept mi mj at at' low low' lt =
      let (k, u) = Reach-Ruled reach b kept in
      let all = Reach-AllSound r members reach b in
      let p : slot + 1 ≡ suc slot = omega arith in
      rw p (
        matching_below k (c.node i).log (c.node j).log (u.logs i mi).0 (u.logs j mj).0
          (all i mi).0.log (all j mj).0.log slot top t at at' low low' lt)
