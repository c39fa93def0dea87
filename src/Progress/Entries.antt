-- ===== src/Progress/Entries.antt =====
-- The AppendEntries handlers of raft-core/src/node.rs: panics, and the soundness of a node.
use mathlib.Core.Option
use raft_rupee.Base.{
  suc, ◌+◌, ◌<◌, ◌≡◌, ◌⊎◌, refl, inl, inr, List, [], ◌∷◌, ◌++◌, Option, Bool, some, none, arith,
  u64_mod, All, All-append, if_cases, ltb, not, ◌||◌, ◌==◌, length, map-eq-some, some_inj, subst,
  sub64, drop, ap,
}
use raft_rupee.Types.{LogIndex, Term, NodeId}
use raft_rupee.Message.{LogEntry, MessageKind}
use raft_rupee.Log.{term_at, truncate_and_append}
use raft_rupee.Log.Bounds.{Contiguous}
use raft_rupee.Node.State.{RaftNode, Rng, Outcome, ◌▷◌, is_leader}
use raft_rupee.Node.Election.{become_follower}
use raft_rupee.Node.Entries.{
  attach_index, store_entries, follow_commit, check_previous, handle_append_entries,
  handle_append_entries_response,
}
use raft_rupee.Replication.Attach.{term_at-le, term_at-ge}
use raft_rupee.Replication.Accept.{store_entries_lem}
use raft_rupee.Progress.Sound.{
  IsSound, Progresses, IsSoundAction, IsSoundKind, done-Progresses, push-Progresses, ▷-Progresses,
  Progresses-of_same, replicate_to_peer-IsSoundAction,
}
use raft_rupee.Progress.Commits.{follow_commit-Progresses, maybe_advance_commit_index-Progresses}
use raft_rupee.Progress.Elections.{become_follower-Progresses}

-- A call that can panic returns, and the node progresses.
abbrev pub NoPanic : RaftNode → Option Outcome → Type 0
NoPanic n x = (o : Outcome) × (x ≡ some o) × Progresses n o

pub some-NoPanic : {n : RaftNode} {o : Outcome} → Progresses n o → NoPanic n (some o)
some-NoPanic {n} {o} p = (o, refl, p)

-- The actions of a first call go before those of a second.
pub map-NoPanic :
    {n : RaftNode} (o : Outcome) (x : Option Outcome)
    → Progresses n o
    → NoPanic o.0 x
    → NoPanic n (Option.map {A = Outcome} {B = Outcome} (λ p. (p.0, o.1 ++ p.1)) x)
map-NoPanic {n} o x a (p, e, b) = (
  (p.0, o.1 ++ p.1),
  ap (Option.map {A = Outcome} {B = Outcome} (λ q. (q.0, o.1 ++ q.1))) e,
  record {
    sound = b.sound;
    commit = omega (arith, a.commit, b.commit);
    applied = omega (arith, a.applied, b.applied);
    sends = All-append IsSoundAction o.1 p.1 a.sends b.sends;
  },
)

-- Storing entries touches nothing but the log.
record OnlyLog (n : RaftNode) (o : Outcome) : Type 0 where
  commit : o.0.commit_index ≡ n.commit_index
  applied : o.0.last_applied ≡ n.last_applied
  sends : All IsSoundAction o.1

store_entries-OnlyLog :
    (n : RaftNode) (es : List LogEntry) {o : Outcome} → store_entries n es ≡ some o → OnlyLog n o
unfolding store_entries
store_entries-OnlyLog n [] h =
    subst (OnlyLog n) (some_inj h) (record { commit = refl; applied = refl; sends = tt })
store_entries-OnlyLog n (e ∷ es) {o} h =
    let attach = attach_index n.log e.index (e ∷ es) in
    let start_offset = sub64 attach e.index in
    if_cases {A = Option Outcome} (λ x. x ≡ some o → OnlyLog n o)
      (ltb start_offset (length (e ∷ es))) _ _
      (λ _ k.
        let (l, _, q) =
          map-eq-some _ (truncate_and_append n.log attach (drop start_offset (e ∷ es))) k in
        subst (OnlyLog n) q (record { commit = refl; applied = refl; sends = (tt, tt) }))
      (λ _ k. subst (OnlyLog n) (some_inj k) (record { commit = refl; applied = refl; sends = tt }))
      h

store_entries-NoPanic :
    (n : RaftNode) (before : LogIndex) (t : Term) (es : List LogEntry)
    → IsSound n
    → term_at n.log before ≡ some t
    → Contiguous (suc before) es
    → (es ≡ []) ⊎ (before + length es + 1 < u64_mod)
    → NoPanic n (store_entries n es)
unfolding store_entries
store_entries-NoPanic n before t [] s at c fits = some-NoPanic (done-Progresses n s)
store_entries-NoPanic n before t (e ∷ es) s at c fits =
    let lo = term_at-ge before t s.log at in
    let hi = term_at-le before t s.log at in
    let room : before + length (e ∷ es) + 1 < u64_mod = elim fits [ inl empty ↦ cc | inr f ↦ f ] in
    let (o, q, stored) =
      store_entries_lem n (suc before) e es s.log (omega (arith, lo)) (omega (arith, hi)) c
        (omega (arith, room)) in
    let kept = store_entries-OnlyLog n (e ∷ es) q in
    (
      o,
      q,
      record {
        sound = record {
          log = stored.valid;
          applied = omega (arith, kept.commit, kept.applied, s.applied);
          fits = omega (arith, kept.commit, s.fits);
        };
        commit = omega (arith, kept.commit);
        applied = omega (arith, kept.applied);
        sends = kept.sends;
      },
    )

check_previous-NoPanic :
    (n : RaftNode) (from : NodeId) (before : LogIndex) (u : Term) (es : List LogEntry)
    (commit : LogIndex) (found : Option Term)
    → IsSound n
    → IsSoundKind (MessageKind.append_entries before u es commit)
    → term_at n.log before ≡ found
    → NoPanic n (check_previous n from before u es commit found)
unfolding check_previous
check_previous-NoPanic n from before u es commit none s k at =
    some-NoPanic (push-Progresses n _ s tt)
check_previous-NoPanic n from before u es commit (some t) s k at =
    if_cases {A = Option Outcome} (NoPanic n) (t == u) _ _
      (λ _.
        let (o, q, p) = store_entries-NoPanic n before t es s at k.0 k.1 in
        rw q (
          some-NoPanic (
            ▷-Progresses (o ▷ follow_commit commit) _
              (▷-Progresses o (follow_commit commit) p (follow_commit-Progresses o.0 commit))
              (λ s'. push-Progresses _ _ s' tt))))
      (λ _. some-NoPanic (push-Progresses n _ s tt))

module _ (r : Rng) where
  pub handle_append_entries-NoPanic :
      (n : RaftNode) (from : NodeId) (t : Term) (before : LogIndex) (u : Term) (es : List LogEntry)
      (commit : LogIndex)
      → IsSound n
      → IsSoundKind (MessageKind.append_entries before u es commit)
      → NoPanic n (handle_append_entries r n from t before u es commit)
  unfolding handle_append_entries
  handle_append_entries-NoPanic n from t before u es commit s k =
      let o = become_follower r t (some from) n in
      let p = become_follower-Progresses r t (some from) n s in
      if_cases {A = Option Outcome} (NoPanic n) (ltb t n.current_term) _ _
        (λ _. some-NoPanic (push-Progresses n _ s tt))
        (λ _.
          map-NoPanic o _ p (check_previous-NoPanic o.0 from before u es commit _ p.sound k refl))

pub handle_append_entries_response-Progresses :
    (n : RaftNode) (from : NodeId) (t : Term) (success : Bool) (u : Option Term)
    (i : Option LogIndex)
    → IsSound n
    → Progresses n (handle_append_entries_response n from t success u i)
unfolding handle_append_entries_response
handle_append_entries_response-Progresses n from t success u i s =
    if_cases (Progresses n) (not (is_leader n.role) || not (t == n.current_term)) _ _
      (λ _. done-Progresses n s)
      (λ _.
        if_cases (Progresses n) success _ _
          (λ _.
            Progresses-of_same _ n (refl, refl)
              (maybe_advance_commit_index-Progresses _
                (record { log = s.log; applied = s.applied; fits = s.fits })))
          (λ _.
            Progresses-of_same _ n (refl, refl)
              (push-Progresses _ _ (record { log = s.log; applied = s.applied; fits = s.fits })
                (replicate_to_peer-IsSoundAction _ from s.log))))
