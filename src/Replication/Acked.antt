-- ===== src/Replication/Acked.antt =====
-- What `maybe_advance_commit_index` of raft-core/src/node.rs asks of an index, by the peers that have
-- acknowledged it.
use raft_rupee.Base.{
  ℕ, zero, suc, ◌+◌, ◌≤◌, ◌<◌, ◌≡◌, inl, inr, some, true, arith, Bool-cases, opt_eq→eq, opt_eq_refl,
  leb→le, le→leb, List, [], ◌∷◌, length, ◌*◌, unwrap_or, Option-cases, AtLeast, AtLeast-cons, leb,
}
use raft_rupee.Types.{LogIndex, NodeId}
use raft_rupee.Log.{term_at}
use raft_rupee.Node.State.{RaftNode}
use raft_rupee.Node.Commit.{majority, count_matching, is_committable}

-- The leader has recorded for peer `p` that it has the log up to index `i` or further.
abbrev pub Acked : RaftNode → LogIndex → NodeId → Type 0
Acked n i p = (m : LogIndex) × (n.match_index p ≡ some m) × (i ≤ m)

-- An entry of the leader's own term, which the leader and `k` of its peers are known to have, together
-- more than half of the cluster.
abbrev pub MayCommit : RaftNode → LogIndex → Type 0
MayCommit n i =
    (term_at n.log i ≡ some n.current_term)
    × (k : ℕ) × AtLeast (Acked n i) k n.peers
    × (length n.peers + 1 < 2 * (k + 1))

-- At an index other than 0, which every peer has, the count is that of the peers recorded.
count_matching-AtLeast :
    (n : RaftNode) (i : LogIndex) (ps : List NodeId)
    → 0 < i
    → AtLeast (Acked n i) (count_matching n.match_index i ps) ps
unfolding count_matching
count_matching-AtLeast n i [] h = tt
count_matching-AtLeast n i (p ∷ ps) h =
    let rest = count_matching n.match_index i ps in
    let ih = count_matching-AtLeast n i ps h in
    elim (Bool-cases (leb i (unwrap_or (n.match_index p) 0))) [
      | inr behind ↦
          let e : 0 + rest ≡ rest = omega arith in
          rw (behind, e) (AtLeast-cons (Acked n i) rest p ps ih)
      | inl has ↦
          let e : 1 + rest ≡ suc rest = omega arith in
          elim (Option-cases (n.match_index p)) [
            | inl unknown ↦
                let none_matched : leb i 0 ≡ true = rw unknown at has in
                absurd (omega (arith, leb→le _ _ none_matched))
            | inr (m, known) ↦
                let up : leb i m ≡ true = rw known at has in
                rw (has, e) (inl ((m, known, leb→le _ _ up), ih))
          ]
    ]

AtLeast-count_matching :
    (n : RaftNode) (i : LogIndex) (k : ℕ) (ps : List NodeId)
    → AtLeast (Acked n i) k ps
    → k ≤ count_matching n.match_index i ps
unfolding count_matching
AtLeast-count_matching n i zero ps h = omega arith
AtLeast-count_matching n i (suc k) [] h = absurd h
AtLeast-count_matching n i (suc k) (p ∷ ps) (inl ((m, known, up), more)) =
    let has : leb i (unwrap_or (n.match_index p) 0) ≡ true = rw known (le→leb _ _ up) in
    rw has (omega (arith, AtLeast-count_matching n i k ps more))
AtLeast-count_matching n i (suc k) (p ∷ ps) (inr more) =
    omega (arith, AtLeast-count_matching n i (suc k) ps more)

pub is_committable→MayCommit :
    (n : RaftNode) (i : LogIndex) → 0 < i → is_committable n i ≡ true → MayCommit n i
unfolding is_committable
is_committable→MayCommit n i above h =
    let many : majority n ≤ 1 + count_matching n.match_index i n.peers =
      leb→le _ _ (ground arith) in
    (
      opt_eq→eq (term_at n.log i) (some n.current_term) (ground arith),
      count_matching n.match_index i n.peers,
      count_matching-AtLeast n i n.peers above,
      omega (arith, many),
    )

pub MayCommit→is_committable :
    (n : RaftNode) (i : LogIndex) → MayCommit n i → is_committable n i ≡ true
unfolding is_committable
MayCommit→is_committable n i (here, k, acked, many) =
    let up = AtLeast-count_matching n i k n.peers acked in
    let enough : majority n ≤ 1 + count_matching n.match_index i n.peers =
      omega (arith, up, many) in
    rw (here, opt_eq_refl (some n.current_term)) (le→leb _ _ enough)
