-- ===== src/Progress/Sound.antt =====
-- The invariant of a node of raft-core/src/node.rs, what its messages promise, and what a node sends.
use raft_rupee.Base.{
  map, suc, ◌+◌, ◌≤◌, ◌<◌, ◌≡◌, ◌⊎◌, inl, inr, [], arith, u64_mod, All, All-append, All-map, length,
  if_cases, leb, leb-false→lt, unwrap_or, dec_le, subst,
}
use raft_rupee.Types.{NodeId, LogIndex, prev}
use raft_rupee.Message.{MessageKind}
use raft_rupee.Log.{RaftLog, last_index, first_index, entries_from, snapshot_meta}
use raft_rupee.Log.Bounds.{IsLog, Contiguous, last_index_lem}
use raft_rupee.Node.State.{RaftNode, Action, Outcome, done, push, ◌▷◌}
use raft_rupee.Node.Replicate.{replicate_to_peer, broadcast_heartbeats, no_snapshot}
use raft_rupee.Replication.Applied.{entries_from-Contiguous, entries_from-length}

-- The log is well formed, nothing is applied beyond the commit index, and that is a u64.
pub record IsSound (n : RaftNode) : Type 0 where
  pub log : IsLog n.log
  pub applied : n.last_applied ≤ n.commit_index
  pub fits : n.commit_index < u64_mod

-- The log has room for one more entry.
abbrev pub HasLogRoom : RaftNode → Type 0
HasLogRoom n = last_index n.log + 2 < u64_mod

-- The entries of an append follow its previous index, one by one, and have successors in a u64; so
-- has the index of a snapshot.
abbrev pub IsSoundKind : MessageKind → Type 0
IsSoundKind (MessageKind.append_entries before _ es _) =
    Contiguous (suc before) es × ((es ≡ []) ⊎ (before + length es + 1 < u64_mod))
IsSoundKind (MessageKind.install_snapshot i _ _ _ _) = i + 1 < u64_mod
IsSoundKind _ = Unit {0}

abbrev pub IsSoundAction : Action → Type 0
IsSoundAction (Action.send m) = IsSoundKind m.kind
IsSoundAction _ = Unit {0}

-- A move of a node: it stays sound, neither its commit index nor its last applied index goes
-- down, and what it sends is
-- sound.
pub record Progresses (n : RaftNode) (o : Outcome) : Type 0 where
  pub sound : IsSound o.0
  pub commit : n.commit_index ≤ o.0.commit_index
  pub applied : n.last_applied ≤ o.0.last_applied
  pub sends : All IsSoundAction o.1

pub done-Progresses : (n : RaftNode) → IsSound n → Progresses n (done n)
done-Progresses n s = record { sound = s; commit = omega arith; applied = omega arith; sends = tt }

pub push-Progresses :
    (n : RaftNode) (a : Action) → IsSound n → IsSoundAction a → Progresses n (push n a)
push-Progresses n a s h = record {
  sound = s;
  commit = omega arith;
  applied = omega arith;
  sends = (h, tt);
}

pub ▷-Progresses :
    {n : RaftNode} (o : Outcome) (f : RaftNode → Outcome)
    → Progresses n o
    → (IsSound o.0 → Progresses o.0 (f o.0))
    → Progresses n (o ▷ f)
unfolding ◌▷◌
▷-Progresses {n} o f a g =
    let b = g a.sound in
    record {
      sound = b.sound;
      commit = omega (arith, a.commit, b.commit);
      applied = omega (arith, a.applied, b.applied);
      sends = All-append IsSoundAction o.1 (f o.0).1 a.sends b.sends;
    }

-- Only the log and the two indices matter.
pub IsSound-of_same :
    (m n : RaftNode)
    → (m.log ≡ n.log) × (m.commit_index ≡ n.commit_index) × (m.last_applied ≡ n.last_applied)
    → IsSound n
    → IsSound m
IsSound-of_same m n e s = record {
  log = rw e.0 s.log;
  applied = omega (arith, e.1, e.2, s.applied);
  fits = omega (arith, e.1, s.fits);
}

pub Progresses-of_same :
    (m n : RaftNode) {o : Outcome}
    → (m.commit_index ≡ n.commit_index) × (m.last_applied ≡ n.last_applied)
    → Progresses m o
    → Progresses n o
Progresses-of_same m n e p = record {
  sound = p.sound;
  commit = omega (arith, e.0, p.commit);
  applied = omega (arith, e.1, p.applied);
  sends = p.sends;
}

snapshot_meta-fits :
    {l : RaftLog}
    → IsLog l
    → (unwrap_or (snapshot_meta l) no_snapshot).last_included_index + 1 < u64_mod
unfolding snapshot_meta
snapshot_meta-fits {l} v = ground (arith, v.fits)

entries_from_beyond :
    {l : RaftLog} (from : LogIndex) → IsLog l → last_index l < from → entries_from l from ≡ []
unfolding entries_from
entries_from_beyond {l} from v far = ground (arith, last_index_lem v)

entries_from-fits :
    {l : RaftLog} (from : LogIndex)
    → IsLog l
    → l.sentinel.index < from
    → (entries_from l from ≡ []) ⊎ (prev from + length (entries_from l from) + 1 < u64_mod)
unfolding prev
entries_from-fits {l} from v lo = elim (dec_le from (last_index l)) [
  | yes hi ↦ inr (omega (arith, entries_from-length from v lo hi, last_index_lem v, v.fits))
  | no far ↦ inl (entries_from_beyond from v (omega arith))
]

-- What a leader sends is sound, whatever it takes for the next index of the peer.
pub replicate_to_peer-IsSoundAction :
    (n : RaftNode) (p : NodeId) → IsLog n.log → IsSoundAction (replicate_to_peer n p)
unfolding replicate_to_peer first_index prev
replicate_to_peer-IsSoundAction n p v =
    let next = unwrap_or (n.next_index p) 1 in
    if_cases IsSoundAction (leb next (first_index n.log)) _ _ (λ _. snapshot_meta-fits v)
      (λ h.
        let lo : n.log.sentinel.index < next = leb-false→lt _ _ h in
        let e : next ≡ suc (prev next) = omega arith in
        (
          subst (λ i. Contiguous i (entries_from n.log next)) e (entries_from-Contiguous next v lo),
          entries_from-fits next v lo,
        ))

pub broadcast-IsSoundAction :
    (n : RaftNode) → IsLog n.log → All IsSoundAction (map (replicate_to_peer n) n.peers)
broadcast-IsSoundAction n v =
    All-map IsSoundAction (replicate_to_peer n) n.peers (λ p. replicate_to_peer-IsSoundAction n p v)

pub broadcast-Progresses : (n : RaftNode) → IsSound n → Progresses n (n, broadcast_heartbeats n)
unfolding broadcast_heartbeats
broadcast-Progresses n s = record {
  sound = s;
  commit = omega arith;
  applied = omega arith;
  sends = broadcast-IsSoundAction n s.log;
}
