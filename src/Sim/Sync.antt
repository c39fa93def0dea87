-- ===== src/Sim/Sync.antt =====
-- Appends that a node of raft-core/src/node.rs accepts, as the disk of raft-sim/src/storage.rs carries
-- them out.
use raft_rupee.Base.{
  suc, ◌+◌, ◌≤◌, ◌<◌, ◌≡◌, ◌⊎◌, ◌∙◌, refl, sym, inl, inr, List, [], ◌∷◌, Option, some, none, arith,
  u64_mod, if_cases, ◌==◌, length, map-eq-some, some_inj, subst, drop,
}
use raft_rupee.Types.{LogIndex, Term, NodeId}
use raft_rupee.Message.{LogEntry, MessageKind}
use raft_rupee.Log.{entries, last_index, term_at}
use raft_rupee.Log.Bounds.{IsLog, Contiguous, Contiguous-drop}
use raft_rupee.Node.State.{RaftNode, Outcome, ◌▷◌}
use raft_rupee.Node.Entries.{store_entries, follow_commit, check_previous}
use raft_rupee.Replication.Attach.{term_at-le, term_at-ge, Matched-le}
use raft_rupee.Replication.Accept.{store_entries-cases}
use raft_rupee.Progress.Sound.{IsSoundKind}
use raft_rupee.Sim.Disk.{process_actions, persist}
use raft_rupee.Sim.Writes.{truncate_and_append_lem}
use raft_rupee.Sim.Quiet.{follow_commit-IsQuiet}
use raft_rupee.Sim.Tracking.{Tracks, ▷-Tracks, IsQuiet-Tracks}

store_entries-Tracks :
    (n : RaftNode) (before : LogIndex) (t : Term) (es : List LogEntry) {o : Outcome}
    → IsLog n.log
    → term_at n.log before ≡ some t
    → Contiguous (suc before) es
    → (es ≡ []) ⊎ (before + length es + 1 < u64_mod)
    → store_entries n es ≡ some o
    → Tracks n o
unfolding store_entries process_actions persist
store_entries-Tracks n before t [] v at c fits h =
    subst (Tracks n) (some_inj h) (IsQuiet-Tracks n _ (refl, tt))
store_entries-Tracks n before t (e ∷ es) {o} v at c fits h =
    let i = suc before in
    let lo = term_at-ge before t v at in
    let hi : i ≤ last_index n.log + 1 = omega (arith, term_at-le before t v at) in
    let room : i + length (e ∷ es) < u64_mod = elim fits [
      | inl empty ↦ cc
      | inr f ↦ omega (arith, f)
    ] in
    elim (store_entries-cases n i e es v (omega (arith, lo)) hi c room) [
      | inl all ↦ subst (Tracks n) (some_inj (sym all.0 ∙ h)) (IsQuiet-Tracks n _ (refl, tt))
      | inr (m, q) ↦ subst (Tracks n) (some_inj (sym q.result ∙ h)) (record {
        follow = λ d k.
            let w =
              truncate_and_append_lem d n.log q.log (i + m) (drop m (e ∷ es)) v k
                (Matched-le n.log i (e ∷ es) m v hi q.matched) (Contiguous-drop i m (e ∷ es) c)
                q.stored in
            record {
              disk = record d { log_entries = entries q.log };
              written = rw (process_actions, w) refl;
              holds = refl;
            };
      })
    ]

pub check_previous-Tracks :
    (n : RaftNode) (from : NodeId) (before : LogIndex) (u : Term) (es : List LogEntry)
    (commit : LogIndex) (found : Option Term) {o : Outcome}
    → IsLog n.log
    → IsSoundKind (MessageKind.append_entries before u es commit)
    → term_at n.log before ≡ found
    → check_previous n from before u es commit found ≡ some o
    → Tracks n o
unfolding check_previous ◌▷◌
check_previous-Tracks n from before u es commit none v k at h =
    subst (Tracks n) (some_inj h) (IsQuiet-Tracks n _ (refl, (tt, tt)))
check_previous-Tracks n from before u es commit (some t) {o} v k at h =
    if_cases {A = Option Outcome} (λ x. x ≡ some o → Tracks n o) (t == u) _ _
      (λ _ e.
        let (p, q, s) = map-eq-some _ (store_entries n es) e in
        subst (Tracks n) s (
          ▷-Tracks n (p ▷ follow_commit commit) _
            (▷-Tracks n p _ (store_entries-Tracks n before t es v at k.0 k.1 q)
              (IsQuiet-Tracks p.0 _ (follow_commit-IsQuiet commit p.0)))
            (IsQuiet-Tracks _ _ (refl, (tt, tt)))))
      (λ _ e. subst (Tracks n) (some_inj e) (IsQuiet-Tracks n _ (refl, (tt, tt)))) h
