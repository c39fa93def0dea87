-- ===== src/Ledger/Appends.antt =====
-- Committing and the AppendEntries handlers of raft-core/src/node.rs, by what they do to the log.
use raft_rupee.Base.{
  ℕ, zero, suc, ◌+◌, ◌<◌, ◌≡◌, ◌⊎◌, refl, sym, ap, ◌∙◌, inl, inr, List, [], ◌∷◌, ◌++◌, Option, Bool,
  some, none, arith, u64_mod, All, All-append, if_cases, ltb, not, ◌||◌, ◌==◌, ==_iff, length,
  map-eq-some, some_inj, subst, take, drop, get_elem?-some,
}
use raft_rupee.Types.{LogIndex, Term, NodeId}
use raft_rupee.Message.{LogEntry}
use raft_rupee.Log.{RaftLog, term_at}
use raft_rupee.Log.Bounds.{IsLog, Contiguous}
use raft_rupee.Node.State.{RaftNode, Role, Outcome, ◌▷◌, is_leader}
use raft_rupee.Node.Commit.{
  apply_entries, apply_committed_entries, commit_to, maybe_advance_commit_index,
}
use raft_rupee.Node.Entries.{
  store_entries, follow_commit, check_previous, handle_append_entries_response,
}
use raft_rupee.Election.Kept.{check_previous-Keeps}
use raft_rupee.Replication.Attach.{Matched, term_at-le, term_at-ge}
use raft_rupee.Replication.Accept.{store_entries-cases}
use raft_rupee.Ledger.Chain.{Ledger, Chain, LogChain, end_term, get_elem?-end_term, Chain-drop}
use raft_rupee.Ledger.Edits.{truncate_and_append-LogChain}
use raft_rupee.Ledger.Lawful.{
  enters, enters-append, LinkedAction, Calm, Lawful, Calm-Lawful, done-Lawful, follower-Lawful,
  Lawful-of_same,
}
use raft_rupee.Ledger.Sends.{replicate_to_peer-LinkedAction, replicate_to_peer-enters, push-Lawful}

-- The log ends, after entries that it has, in the term in which they end.
Matched-end_term :
    (l : RaftLog) (before : LogIndex) (t : Term) (es : List LogEntry) (m : ℕ)
    → term_at l before ≡ some t
    → Matched l (suc before) es m
    → term_at l (before + m) ≡ some (end_term t (take m es))
Matched-end_term l before t es zero at s = let e : before + 0 ≡ before = omega arith in rw e at
Matched-end_term l before t es (suc m) at s =
    let (x, g) = get_elem?-some es m (omega (arith, s.few)) in
    let e : before + suc m ≡ suc before + m = omega arith in
    let ends =
      get_elem?-end_term (record { index = before; term = t; command = [] }) es (suc m) x g in
    rw e (s.same m x (omega arith) g ∙ ap some ends)

module _ (k : Ledger) where
  -- Nothing is created, and the log goes on following the ledger.
  abbrev pub Adopts : RaftNode → Outcome → Type 0
  Adopts n o =
      (enters o.1 ≡ []) × (LogChain k n.log → LogChain k o.0.log × All (LinkedAction k) o.1)

  ▷-Adopts :
      (n : RaftNode) (o : Outcome) (f : RaftNode → Outcome)
      → Adopts n o
      → Adopts o.0 (f o.0)
      → Adopts n (o ▷ f)
  unfolding ◌▷◌
  ▷-Adopts n o f (e, a) (e', b) = (
    enters-append o.1 (f o.0).1 ∙ ap (λ x. x ++ enters (f o.0).1) e ∙ e',
    λ h.
        let first = a h in
        let second = b first.0 in
        (second.0, All-append (LinkedAction k) o.1 (f o.0).1 first.1 second.1),
  )

  Plain : RaftNode → Outcome → Type 0
  Plain n o = Calm n o × All (LinkedAction k) o.1

  Plain-Adopts : (n : RaftNode) (o : Outcome) → Plain n o → Adopts n o
  unfolding Plain
  Plain-Adopts n o (c, s) = (c.silent, λ h. (rw (c.log) h, s))

  apply_entries-Plain : (n : RaftNode) (es : List LogEntry) → Plain n (apply_entries n es)
  unfolding Plain apply_entries
  apply_entries-Plain n [] = (record { silent = refl; role = refl; term = refl; log = refl }, tt)
  apply_entries-Plain n (e ∷ es) =
      (record { silent = refl; role = refl; term = refl; log = refl }, (tt, tt))

  commit_to-Plain : (n : RaftNode) (i : LogIndex) → Plain n (commit_to n i)
  unfolding commit_to apply_committed_entries Plain
  commit_to-Plain n i =
      let m = record n { commit_index = i } in
      let stay : (o : Outcome) → Plain m o → Plain n o = λ o p.
        (record { silent = p.0.silent; role = p.0.role; term = p.0.term; log = p.0.log }, p.1) in
      if_cases {A = Outcome} (Plain n) (ltb n.commit_index i) _ _
        (λ _.
          if_cases {A = Outcome} (Plain n) (ltb n.last_applied i) _ _
            (λ _. stay _ (apply_entries-Plain m _))
            (λ _. (record { silent = refl; role = refl; term = refl; log = refl }, tt)))
        (λ _. (record { silent = refl; role = refl; term = refl; log = refl }, tt))

  pub maybe_advance_commit_index-Calm : (n : RaftNode) → Calm n (maybe_advance_commit_index n)
  unfolding maybe_advance_commit_index Plain
  maybe_advance_commit_index-Calm n = (commit_to-Plain n _).0

  pub maybe_advance_commit_index-Lawful : (n : RaftNode) → Lawful k n (maybe_advance_commit_index n)
  unfolding maybe_advance_commit_index Plain
  maybe_advance_commit_index-Lawful n = let p = commit_to-Plain n _ in Calm-Lawful k p.0 (λ _. p.1)

  follow_commit-Adopts : (n : RaftNode) (i : LogIndex) → Adopts n (follow_commit i n)
  unfolding follow_commit
  follow_commit-Adopts n i =
      if_cases {A = Outcome} (Adopts n) (ltb n.commit_index i) _ _
        (λ _. Plain-Adopts n _ (commit_to-Plain n _)) (λ _. (refl, λ h. (h, tt)))

  -- The entries follow the term that the log has before them.
  store_entries-Adopts :
      (n : RaftNode) (before : LogIndex) (t : Term) (es : List LogEntry) {o : Outcome}
      → IsLog n.log
      → term_at n.log before ≡ some t
      → Contiguous (suc before) es
      → (es ≡ []) ⊎ (before + length es + 1 < u64_mod)
      → Chain k t es
      → store_entries n es ≡ some o
      → Adopts n o
  unfolding store_entries
  store_entries-Adopts n before t [] v at c fits linked done =
      subst (Adopts n) (some_inj done) (refl, λ h. (h, tt))
  store_entries-Adopts n before t (e ∷ es) v at c fits linked done =
      let room : before + length (e ∷ es) + 1 < u64_mod = elim fits [
        | inl empty ↦ cc
        | inr f ↦ f
      ] in
      elim (store_entries-cases n (suc before) e es v (omega (arith, term_at-ge before t v at))
        (omega (arith, term_at-le before t v at)) c (omega (arith, room))) [
          | inl (all, _) ↦ subst (Adopts n) (some_inj (sym all ∙ done)) (refl, λ h. (h, tt))
          | inr (m, q) ↦ subst (Adopts n) (some_inj (sym q.result ∙ done)) (
            refl,
            λ h.
                let i : suc before + m ≡ suc (before + m) = omega arith in
                (
                  truncate_and_append-LogChain k n.log q.log (before + m)
                      (end_term t (take m (e ∷ es))) (drop m (e ∷ es)) h
                      (Matched-end_term n.log before t (e ∷ es) m at q.matched)
                      (Chain-drop k t m (e ∷ es) linked) (rw i at q.stored),
                  (tt, tt),
                ),
          )
        ]

  check_previous-Adopts :
      (n : RaftNode) (from : NodeId) (before : LogIndex) (u : Term) (es : List LogEntry)
      (commit : LogIndex) (found : Option Term) {o : Outcome}
      → IsLog n.log
      → Contiguous (suc before) es
      → (es ≡ []) ⊎ (before + length es + 1 < u64_mod)
      → Chain k u es
      → term_at n.log before ≡ found
      → check_previous n from before u es commit found ≡ some o
      → Adopts n o
  unfolding check_previous
  check_previous-Adopts n from before u es commit none v c fits linked at done =
      subst (Adopts n) (some_inj done) (refl, λ h. (h, (tt, tt)))
  check_previous-Adopts n from before u es commit (some t) {o} v c fits linked at done =
      if_cases {A = Option Outcome} (λ x. x ≡ some o → Adopts n o) (t == u) _ _
        (λ same e.
          let t_is_u : t ≡ u = (==_iff t u).0 same in
          let (p, q, s) = map-eq-some _ (store_entries n es) e in
          let first = store_entries-Adopts n before u es v (at ∙ ap some t_is_u) c fits linked q in
          subst (Adopts n) s (
            ▷-Adopts n (p ▷ follow_commit commit) _
              (▷-Adopts n p (follow_commit commit) first (follow_commit-Adopts p.0 commit))
              (refl, λ h. (h, (tt, tt)))))
        (λ _ e. subst (Adopts n) (some_inj e) (refl, λ h. (h, (tt, tt)))) done

  -- A follower checks the previous entry and adopts the others.
  pub check_previous-Lawful :
      (n : RaftNode) (from : NodeId) (before : LogIndex) (u : Term) (es : List LogEntry)
      (commit : LogIndex) {o : Outcome}
      → n.role ≡ Role.follower
      → IsLog n.log
      → Contiguous (suc before) es
      → (es ≡ []) ⊎ (before + length es + 1 < u64_mod)
      → Chain k u es
      → check_previous n from before u es commit (term_at n.log before) ≡ some o
      → Lawful k n o
  check_previous-Lawful n from before u es commit f v c fits linked done =
      let keeps = check_previous-Keeps n from before u es commit (term_at n.log before) done in
      let a =
        check_previous-Adopts n from before u es commit (term_at n.log before) v c fits linked refl
          done in
      follower-Lawful k (keeps.role ∙ f) (omega (arith, keeps.term)) a.0 a.1

  pub handle_append_entries_response-Lawful :
      (n : RaftNode) (from : NodeId) (t : Term) (success : Bool) (u : Option Term)
      (i : Option LogIndex)
      → Lawful k n (handle_append_entries_response n from t success u i)
  unfolding handle_append_entries_response
  handle_append_entries_response-Lawful n from t success u i =
      if_cases (Lawful k n) (not (is_leader n.role) || not (t == n.current_term)) _ _
        (λ _. done-Lawful k n)
        (λ _.
          if_cases (Lawful k n) success _ _
            (λ _. Lawful-of_same k _ n (refl, refl, refl) (maybe_advance_commit_index-Lawful _))
            (λ _.
              Lawful-of_same k _ n (refl, refl, refl)
                (push-Lawful k _ _ (replicate_to_peer-enters _ from)
                  (λ h. replicate_to_peer-LinkedAction k _ from h))))
