-- ===== src/Cluster/Ledgers.antt =====
-- The entries that the leaders of a cluster of nodes of raft-core/src/node.rs have created.
use raft_rupee.Base.{
  ◌≤◌, ◌≡◌, ◌⊎◌, refl, inl, inr, List, some, true, false, arith, contains, ◌==◌, ◌&&◌, ==_refl,
  Bool-cases, All, if◌then◌else◌,
}
use raft_rupee.Types.{Term, LogIndex, NodeId}
use raft_rupee.Message.{Bytes, LogEntry, MessageKind}
use raft_rupee.Log.{last_index}
use raft_rupee.Node.State.{Rng, Action, is_leader, is_candidate}
use raft_rupee.Cluster.System.{Cluster}
use raft_rupee.Cluster.Safety.{Mandate}
use raft_rupee.Ledger.Chain.{Ledger, LogChain, Extends, Chain-Extends}
use raft_rupee.Ledger.Lawful.{LinkedKind, LinkedAction}

-- One more entry, with the term of the entry before it.
abbrev pub enter : Ledger → LogEntry → Term → Ledger
enter k e before t i = if t == e.term && i == e.index then some (before, e.command) else k t i

pub enter-Extends :
    (k : Ledger) (e : LogEntry) (before : Term)
    → ((y : Term × Bytes) → k e.term e.index ≡ some y → ⊥)
    → Extends k (enter k e before)
enter-Extends k e before new t i y h = elim (Bool-cases (t == e.term && i == e.index)) [
  | inr other ↦ rw other h
  | inl same ↦
      let et : t ≡ e.term = ground arith in
      let ei : i ≡ e.index = ground arith in absurd (new y (rw (et, ei) at h))
]

pub enter-cases :
    (k : Ledger) (e : LogEntry) (before : Term) (t : Term) (i : LogIndex) (y : Term × Bytes)
    → enter k e before t i ≡ some y
    → (k t i ≡ some y) ⊎ ((t ≡ e.term) × (i ≡ e.index))
enter-cases k e before t i y h = elim (Bool-cases (t == e.term && i == e.index)) [
  | inr other ↦ inl (rw other at h)
  | inl same ↦ inr (ground arith, ground arith)
]

pub enter-entry :
    (k : Ledger) (e : LogEntry) (before : Term)
    → enter k e before e.term e.index ≡ some (before, e.command)
enter-entry k e before = rw (==_refl e.term, ==_refl e.index) refl

pub LinkedAction-Extends :
    (k k' : Ledger) → Extends k k' → (a : Action) → LinkedAction k a → LinkedAction k' a
LinkedAction-Extends k k' x (Action.send m) h = go m.kind h
  where
    go : (kind : MessageKind) → LinkedKind k kind → LinkedKind k' kind
    go (MessageKind.append_entries _ t es _) l = Chain-Extends k k' t es x l
    go (MessageKind.client_request _) l = tt
    go (MessageKind.client_response _ _) l = tt
    go (MessageKind.pre_vote _ _) l = tt
    go (MessageKind.pre_vote_response _) l = tt
    go (MessageKind.request_vote _ _) l = tt
    go (MessageKind.request_vote_response _) l = tt
    go (MessageKind.append_entries_response _ _ _) l = tt
    go (MessageKind.install_snapshot _ _ _ _ _) l = tt
    go MessageKind.install_snapshot_response l = tt
LinkedAction-Extends k k' x _ h = tt

module _ (r : Rng) (members : List NodeId) where
  -- The leader whose entry it is: it was elected in the term, and does not run for it again.
  pub record Origin (c : Cluster) (t : Term) : Type 0 where
    pub by : NodeId
    pub known : contains members by ≡ true
    pub mandate : Mandate r members c by t
    pub reached : t ≤ (c.node by).current_term
    pub once : (c.node by).current_term ≡ t → is_candidate (c.node by).role ≡ false

  -- Logs and messages follow the ledger; a leader has its entries of the term; and each entry is by
  -- an elected leader.
  pub record Ruled (k : Ledger) (c : Cluster) : Type 0 where
    pub logs :
        (i : NodeId)
        → contains members i ≡ true
        → LogChain k (c.node i).log × All (LinkedAction k) (c.sent i)
    pub reigns :
        (i : NodeId)
        → contains members i ≡ true
        → is_leader (c.node i).role ≡ true
        → (x : LogIndex) (y : Term × Bytes) → k (c.node i).current_term x ≡ some y
        → x ≤ last_index (c.node i).log
    pub origin : (t : Term) (x : LogIndex) (y : Term × Bytes) → k t x ≡ some y → Origin c t
