-- ===== src/Replication/Advance.antt =====
-- `maybe_advance_commit_index` of raft-core/src/node.rs, the commit rule of a leader.
use raft_rupee.Base.{
  ℕ, zero, suc, ◌+◌, ◌-◌, ◌≤◌, ◌<◌, ◌≡◌, refl, ◌⊎◌, inl, inr, Bool, true, false, arith, u64_mod,
  add64, add64_of_lt, Bool-cases, ltb, if_cases, ltb→lt, ltb-false→le, dec_le, sym, ◌∙◌, List, [],
  ◌∷◌, max,
}
use raft_rupee.Types.{LogIndex}
use raft_rupee.Message.{LogEntry}
use raft_rupee.Log.{last_index}
use raft_rupee.Node.State.{RaftNode, Outcome}
use raft_rupee.Node.Commit.{
  is_committable, scan_commit, apply_entries, apply_committed_entries, commit_to,
  maybe_advance_commit_index,
}
use raft_rupee.Replication.Acked.{MayCommit, is_committable→MayCommit, MayCommit→is_committable}

false-true : ◌≡◌ {A = Bool} false true → ⊥
false-true h = cc

-- The index that the loop arrives at is the last committable one of its range, or the one before it.
pub record Scanned (n : RaftNode) (i stop before result : LogIndex) : Type 0 where
  pub found :
      (result ≡ before) ⊎ ((i ≤ result) × (result < stop) × (is_committable n result ≡ true))
  none_above :
      (j : LogIndex)
      → i ≤ j
      → j < stop
      → is_committable n j ≡ true
      → (i ≤ result) × (j ≤ result) × (result < stop)

pub scan_commit_lem :
    (n : RaftNode) (rounds : ℕ) (i before : LogIndex)
    → Scanned n i (i + rounds) before (scan_commit n rounds i before)
unfolding scan_commit
scan_commit_lem n zero i before = record {
  found = inl refl;
  none_above = λ j lo hi h. absurd (omega arith);
}
scan_commit_lem n (suc rounds) i before = elim (Bool-cases (is_committable n i)) [
  | inl yea ↦ rw yea (hit yea (scan_commit_lem n rounds (suc i) i))
  | inr nay ↦ rw nay (miss nay (scan_commit_lem n rounds (suc i) before))
]
  where
    hit :
        {result : LogIndex}
        → is_committable n i ≡ true
        → Scanned n (suc i) (suc i + rounds) i result
        → Scanned n i (i + suc rounds) before result
    hit {result} yea s =
        let low : i ≤ result = ground (arith, s.found) in
        record {
          found = elim s.found [
            | inl e ↦ inr (low, omega arith, rw e yea)
            | inr f ↦ inr (low, omega arith, f.2)
          ];
          none_above = λ j lo hi h. elim (dec_le j i) [
            | yes first ↦ (low, omega arith, ground (arith, s.found))
            | no above ↦
                let p = s.none_above j (omega arith) (omega arith) h in
                (low, p.1, omega (arith, p.2))
          ];
        }

    miss :
        {result : LogIndex}
        → is_committable n i ≡ false
        → Scanned n (suc i) (suc i + rounds) before result
        → Scanned n i (i + suc rounds) before result
    miss {result} nay s = record {
      found = elim s.found [
        | inl e ↦ inl e
        | inr f ↦ inr (omega (arith, f.0), omega (arith, f.1), f.2)
      ];
      none_above = λ j lo hi h. elim (dec_le j i) [
        | yes first ↦ let e : j ≡ i = omega arith in absurd (false-true (sym nay ∙ rw e at h))
        | no above ↦
            let p = s.none_above j (omega arith) (omega arith) h in
            (omega (arith, p.0), p.1, omega (arith, p.2))
      ];
    }

apply_entries-commit :
    (n : RaftNode) (es : List LogEntry) → (apply_entries n es).0.commit_index ≡ n.commit_index
unfolding apply_entries
apply_entries-commit n [] = refl
apply_entries-commit n (e ∷ es) = refl

apply_committed_entries-commit :
    (n : RaftNode) → (apply_committed_entries n).0.commit_index ≡ n.commit_index
unfolding apply_committed_entries
apply_committed_entries-commit n =
    if_cases {A = Outcome} (λ o. o.0.commit_index ≡ n.commit_index)
      (ltb n.last_applied n.commit_index) _ _ (λ _. apply_entries-commit n _) (λ _. refl)

pub commit_to-commit :
    (n : RaftNode) (i : LogIndex) → (commit_to n i).0.commit_index ≡ max n.commit_index i
unfolding commit_to
commit_to-commit n i =
    if_cases {A = Outcome} (λ o. o.0.commit_index ≡ max n.commit_index i) (ltb n.commit_index i) _ _
      (λ h.
        omega (arith, apply_committed_entries-commit (record n { commit_index = i }), ltb→lt _ _ h))
      (λ h. omega (arith, ltb-false→le _ _ h))

-- What the rule promises of the new commit index.
abbrev pub Advances : RaftNode → LogIndex → Type 0
Advances n result =
    ((result ≡ n.commit_index)
      ⊎ ((n.commit_index < result) × (result ≤ last_index n.log) × MayCommit n result))
    × ((i : LogIndex) → i ≤ last_index n.log → MayCommit n i → i ≤ result)

Scanned-Advances :
    (n : RaftNode) (x result : LogIndex)
    → Scanned n
        (suc n.commit_index)
        (suc n.commit_index + (suc (last_index n.log) - suc n.commit_index))
        n.commit_index
        x
    → result ≡ max n.commit_index x
    → Advances n result
Scanned-Advances n x result s e = (reached, all_below)
  where
    c : LogIndex
    c = n.commit_index

    reached : (result ≡ c) ⊎ ((c < result) × (result ≤ last_index n.log) × MayCommit n result)
    reached = elim s.found [
      | inl same ↦ inl (omega arith)
      | inr f ↦
          let up : result ≡ x = omega (arith, f.0) in
          inr (
            omega (arith, f.0),
            omega (arith, f.0, f.1),
            rw up (is_committable→MayCommit n x (omega (arith, f.0)) f.2),
          )
    ]

    all_below : (i : LogIndex) → i ≤ last_index n.log → MayCommit n i → i ≤ result
    all_below i hi m = elim (dec_le i c) [
      | yes low ↦ omega arith
      | no high ↦
          omega
            (arith, (s.none_above i (omega arith) (omega arith) (MayCommit→is_committable n i m)).1)
    ]

-- While the commit index leaves room for one more in a u64, the commit rule either leaves it as it
-- is, or moves it up to an index of the log whose entry is of the current term and which the leader and
-- peers, by their match indices, have that are together more than half of the cluster; and it leaves
-- no such index of the log above the new commit index.
pub maybe_advance_commit_index_lem :
    (n : RaftNode)
    → n.commit_index + 1 < u64_mod
    → Advances n (maybe_advance_commit_index n).0.commit_index
unfolding maybe_advance_commit_index
maybe_advance_commit_index_lem n room =
    let e : add64 n.commit_index 1 ≡ suc n.commit_index =
      add64_of_lt n.commit_index 1 room ∙ omega arith in
    rw e (
      Scanned-Advances n _ _
        (scan_commit_lem n (suc (last_index n.log) - suc n.commit_index) (suc n.commit_index)
          n.commit_index)
        (commit_to-commit n _))
