-- ===== src/Progress/Commits.antt =====
-- Committing and applying in raft-core/src/node.rs, and the soundness of a node.
use raft_rupee.Base.{
  suc, ◌+◌, ◌-◌, ◌≤◌, ◌<◌, ◌≡◌, inl, inr, sym, ◌∙◌, true, List, [], ◌∷◌, arith, u64_mod, if_cases,
  leb, leb→le, ltb, ltb→lt, last_of, add64, subst, dec_le, min,
}
use raft_rupee.Types.{LogIndex, next, next_of_lt}
use raft_rupee.Message.{LogEntry}
use raft_rupee.Log.{RaftLog, entries_from, last_index}
use raft_rupee.Log.Bounds.{IsLog, Contiguous, last_index_lem, last_of-index}
use raft_rupee.Node.State.{RaftNode}
use raft_rupee.Node.Commit.{
  take_committed, apply_entries, apply_committed_entries, commit_to, maybe_advance_commit_index,
  scan_commit,
}
use raft_rupee.Node.Entries.{follow_commit}
use raft_rupee.Replication.Advance.{scan_commit_lem}
use raft_rupee.Replication.Applied.{entries_from-Contiguous, take_committed-Contiguous}
use raft_rupee.Progress.Sound.{IsSound, Progresses, done-Progresses}

-- No entry taken is beyond the commit index.
last_of-take_committed :
    (commit : LogIndex) (e : LogEntry) (es : List LogEntry)
    → e.index ≤ commit
    → (last_of e (take_committed commit es)).index ≤ commit
unfolding take_committed
last_of-take_committed commit e [] h = h
last_of-take_committed commit e (x ∷ es) h =
    if_cases (λ (xs : List LogEntry). (last_of e xs).index ≤ commit) (leb x.index commit) _ _
      (λ le. last_of-take_committed commit x es (leb→le _ _ le)) (λ _. h)

apply_entries-Progresses :
    (n : RaftNode) (i : LogIndex) (es : List LogEntry)
    → IsSound n
    → n.last_applied ≤ i
    → Contiguous i es
    → Progresses n (apply_entries n (take_committed n.commit_index es))
unfolding take_committed apply_entries
apply_entries-Progresses n i [] s le c = done-Progresses n s
apply_entries-Progresses n i (e ∷ es) s le c =
    if_cases (λ (xs : List LogEntry). Progresses n (apply_entries n xs))
      (leb e.index n.commit_index) _ _
      (λ in_range.
        let top = last_of-take_committed n.commit_index e es (leb→le _ _ in_range) in
        let low = last_of-index e (take_committed n.commit_index es) (
          take_committed-Contiguous n.commit_index (suc e.index) es
            (subst (λ k. Contiguous (suc k) es) (sym c.0) c.1)) in
        record {
          sound = record { log = s.log; applied = top; fits = s.fits };
          commit = omega arith;
          applied = omega (arith, low, c.0);
          sends = (tt, tt);
        })
      (λ _. done-Progresses n s)

-- What follows the last applied entry, or the whole log where that is compacted away.
entries_after :
    (l : RaftLog) (applied : LogIndex)
    → IsLog l
    → (i : LogIndex) × (applied ≤ i) × Contiguous i (entries_from l (suc applied))
unfolding entries_from
entries_after l applied v = elim (dec_le l.sentinel.index applied) [
  | yes lo ↦ (suc applied, omega arith, entries_from-Contiguous (suc applied) v (omega arith))
  | no compacted ↦
      let below : leb (suc applied) l.sentinel.index ≡ true = ground (arith, compacted) in
      (suc l.sentinel.index, omega arith, rw below v.contiguous)
]

pub apply_committed_entries-Progresses :
    (n : RaftNode) → IsSound n → Progresses n (apply_committed_entries n)
unfolding apply_committed_entries
apply_committed_entries-Progresses n s =
    if_cases (Progresses n) (ltb n.last_applied n.commit_index) _ _
      (λ lt.
        let room : n.last_applied + 1 < u64_mod = omega (arith, ltb→lt _ _ lt, s.fits) in
        let q : n.last_applied + 1 ≡ suc n.last_applied = omega arith in
        let e : next n.last_applied ≡ suc n.last_applied = next_of_lt n.last_applied room ∙ q in
        let (i, le, c) = entries_after n.log n.last_applied s.log in
        rw e (apply_entries-Progresses n i (entries_from n.log (suc n.last_applied)) s le c))
      (λ _. done-Progresses n s)

pub commit_to-Progresses :
    (n : RaftNode) (i : LogIndex) → IsSound n → i < u64_mod → Progresses n (commit_to n i)
unfolding commit_to
commit_to-Progresses n i s fits =
    if_cases (Progresses n) (ltb n.commit_index i) _ _
      (λ lt.
        let up = ltb→lt _ _ lt in
        let p =
          apply_committed_entries-Progresses (record n { commit_index = i })
            (record { log = s.log; applied = omega (arith, s.applied); fits = fits }) in
        record {
          sound = p.sound;
          commit = omega (arith, p.commit);
          applied = p.applied;
          sends = p.sends;
        })
      (λ _. done-Progresses n s)

pub maybe_advance_commit_index-Progresses :
    (n : RaftNode) → IsSound n → Progresses n (maybe_advance_commit_index n)
unfolding maybe_advance_commit_index
maybe_advance_commit_index-Progresses n s =
    let start = add64 n.commit_index 1 in
    let rounds = suc (last_index n.log) - start in
    let scan = scan_commit_lem n rounds start n.commit_index in
    commit_to-Progresses n (scan_commit n rounds start n.commit_index) s (elim scan.found [
      | inl same ↦ omega (arith, same, s.fits)
      | inr f ↦ omega (arith, f.0, f.1, last_index_lem s.log, s.log.fits)
    ])

pub follow_commit-Progresses :
    (n : RaftNode) (i : LogIndex) → IsSound n → Progresses n (follow_commit i n)
unfolding follow_commit
follow_commit-Progresses n i s =
    if_cases (Progresses n) (ltb n.commit_index i) _ _
      (λ _.
        commit_to-Progresses n (min i (last_index n.log)) s
          (omega (arith, last_index_lem s.log, s.log.fits)))
      (λ _. done-Progresses n s)
