-- ===== src/Replication/Conflict.antt =====
-- The two searches of raft-core/src/node.rs after a refused append: the follower's, for the start of
-- the conflicting term, and the leader's, for the end of that term in its own log.
use raft_rupee.Base.{
  ℕ, zero, suc, ◌+◌, ◌-◌, ◌≤◌, ◌<◌, ◌≡◌, ◌≢◌, ◌⊎◌, inl, inr, Option, some, none, false, arith, ltb,
  if_cases, dec_le, opt_eq, opt_eq→eq, opt_eq-false→ne, ◌&&◌, subst, dec_lt, unwrap_or,
}
use mathlib.Core.Option
use raft_rupee.Types.{LogIndex, Term, NodeId, next}
use raft_rupee.Node.State.{RaftNode}
use raft_rupee.Log.{RaftLog, first_index, last_index, term_at}
use raft_rupee.Node.Entries.{conflict_start, last_of_term, backtrack}

-- From `r` up to `i` every slot has term `t`, and the one before `r` has not, or is compacted away.
pub record IsRunStart (l : RaftLog) (t : Term) (i r : LogIndex) : Type 0 where
  pub low : first_index l ≤ r
  pub high : r ≤ i
  pub same : (j : LogIndex) → r ≤ j → j ≤ i → term_at l j ≡ some t
  pub stop : (r ≡ first_index l) ⊎ ((0 < r) × (term_at l (r - 1) ≢ some t))

IsRunStart-further :
    (l : RaftLog) (t : Term) (i r : LogIndex)
    → term_at l (suc i) ≡ some t
    → IsRunStart l t i r
    → IsRunStart l t (suc i) r
IsRunStart-further l t i r h s = record {
  low = s.low;
  high = omega (arith, s.high);
  same = λ j a b. elim (dec_le j i) [
    | yes below ↦ s.same j a below
    | no top ↦ let e : j ≡ suc i = omega arith in rw e h
  ];
  stop = s.stop;
}

IsRunStart-here :
    (l : RaftLog) (t : Term) (i : LogIndex)
    → first_index l ≤ suc i
    → term_at l (suc i) ≡ some t
    → (ltb (first_index l) (suc i) && opt_eq (term_at l i) (some t)) ≡ false
    → IsRunStart l t (suc i) (suc i)
IsRunStart-here l t i lo h e = record {
  low = lo;
  high = omega arith;
  same = λ j a b. let p : j ≡ suc i = omega arith in rw p h;
  stop = elim (dec_le (suc i) (first_index l)) [
    | yes base ↦ inl (omega arith)
    | no above ↦
        let p : suc i - 1 ≡ i = omega arith in
        inr (omega arith, rw p (opt_eq-false→ne (term_at l i) (some t) (ground arith)))
  ];
}

-- The follower answers a conflict at a retained index with the first index of the unbroken run of
-- entries of the conflicting term that ends there, cut off only at the base of the log.
pub conflict_start_lem :
    (l : RaftLog) (t : Term) (i : LogIndex)
    → first_index l ≤ i
    → term_at l i ≡ some t
    → IsRunStart l t i (conflict_start l t i)
unfolding conflict_start
conflict_start_lem l t zero lo h = record {
  low = lo;
  high = omega arith;
  same = λ j a b. let e : j ≡ 0 = omega arith in rw e h;
  stop = inl (omega arith);
}
conflict_start_lem l t (suc i) lo h =
    if_cases (IsRunStart l t (suc i)) (ltb (first_index l) (suc i) && opt_eq (term_at l i) (some t))
      _ _
      (λ e.
        IsRunStart-further l t i _ h (
          conflict_start_lem l t i (ground arith)
            (opt_eq→eq (term_at l i) (some t) (ground arith))))
      (IsRunStart-here l t i lo h)

-- What a search for the last slot with term `t`, from `lo` up to but not including `hi`, returns.
abbrev pub LastWith : RaftLog → Term → LogIndex → LogIndex → Option LogIndex → Type 0
LastWith l t lo hi none = (j : LogIndex) → lo ≤ j → j < hi → term_at l j ≢ some t
LastWith l t lo hi (some i) =
    (term_at l i ≡ some t)
    × (lo ≤ i)
    × (i < hi)
    × ((j : LogIndex) → i < j → j < hi → term_at l j ≢ some t)

LastWith-more :
    (l : RaftLog) (t : Term) (lo hi hi' : LogIndex) (o : Option LogIndex)
    → hi' ≡ suc hi
    → term_at l hi ≢ some t
    → LastWith l t lo hi o
    → LastWith l t lo hi' o
LastWith-more l t lo hi hi' none e f w = λ j a b. elim (dec_lt j hi) [
  | yes old ↦ w j a old
  | no new ↦ let p : j ≡ hi = omega arith in rw p f
]
LastWith-more l t lo hi hi' (some i) e f w = (
  w.0,
  w.1,
  omega (arith, w.2),
  λ j a b. elim (dec_lt j hi) [
    | yes old ↦ w.3 j a old
    | no new ↦ let p : j ≡ hi = omega arith in rw p f
  ],
)

last_of_term_lem :
    (l : RaftLog) (t : Term) (first : LogIndex) (rounds : ℕ)
    → LastWith l t first (first + rounds) (last_of_term l t first rounds)
unfolding last_of_term
last_of_term_lem l t first zero = λ j a b. absurd (omega arith)
last_of_term_lem l t first (suc rounds) =
    let e : first + suc rounds ≡ suc (first + rounds) = omega arith in
    if_cases (LastWith l t first (first + suc rounds))
      (opt_eq (term_at l (first + rounds)) (some t)) _ _
      (λ h. (
        opt_eq→eq (term_at l (first + rounds)) (some t) h,
        omega arith,
        omega arith,
        λ j a b. absurd (omega arith),
      ))
      (λ h.
        LastWith-more l t first (first + rounds) (first + suc rounds) _ e
          (opt_eq-false→ne (term_at l (first + rounds)) (some t) h)
          (last_of_term_lem l t first rounds))

-- What the leader takes for the next index of a peer that reported a conflicting term: the index
-- after its own last retained entry of that term, where it has one, else the index that the peer
-- sent, or 1.
pub backtrack_lem :
    (n : RaftNode) (from : NodeId) (t : Term) (hint : Option LogIndex)
    → first_index n.log ≤ last_index n.log
    → (o : Option LogIndex) × LastWith n.log t (first_index n.log) (suc (last_index n.log)) o
      × (backtrack n from (some t) hint ≡ unwrap_or (Option.map next o) (unwrap_or hint 1))
unfolding backtrack
backtrack_lem n from t hint h =
    let lo = first_index n.log in
    let rounds = suc (last_index n.log) - lo in
    let e : lo + rounds ≡ suc (last_index n.log) = omega arith in
    let o = last_of_term n.log t lo rounds in
    (o, subst (λ hi. LastWith n.log t lo hi o) e (last_of_term_lem n.log t lo rounds), ground arith)
