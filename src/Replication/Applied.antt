-- ===== src/Replication/Applied.antt =====
-- `apply_committed_entries` of raft-core/src/node.rs: what is handed to the state machine.
use raft_rupee.Base.{
  ℕ, zero, suc, ◌+◌, ◌-◌, ◌≤◌, ◌<◌, ◌≡◌, refl, ◌∙◌, arith, leb, if_cases, length, leb→le, le→leb,
  lt→ltb, dec_le, List, [], ◌∷◌, get_elem?, last_of, subst, drop, length-drop,
}
use raft_rupee.Types.{LogIndex, next_of_lt}
use raft_rupee.Message.{LogEntry}
use raft_rupee.Log.{RaftLog, last_index, entry_at, entries_from, entries}
use raft_rupee.Log.Bounds.{IsLog, Contiguous, Contiguous-drop, last_index_lem, last_of-index}
use raft_rupee.Log.Edits.{entries_from-entry_at}
use raft_rupee.Node.State.{RaftNode, Action}
use raft_rupee.Node.Commit.{take_committed, apply_entries, apply_committed_entries}

-- The entries `from`, `from + 1`, … of the log, `count` of them.
pub record IsSlice (l : RaftLog) (from : LogIndex) (count : ℕ) (es : List LogEntry) : Type 0 where
  pub size : length es ≡ count
  pub slot : (k : ℕ) → k < count → get_elem? es k ≡ entry_at l (from + k)

pub entries_from-Contiguous :
    {l : RaftLog} (from : LogIndex)
    → IsLog l
    → l.sentinel.index < from
    → Contiguous from (entries_from l from)
unfolding entries_from
entries_from-Contiguous {l} from v lo =
    let n : ℕ = from - l.sentinel.index in
    let e : l.sentinel.index + n ≡ from = omega arith in
    if_cases (Contiguous from) (leb from l.sentinel.index) _ _
      (λ h. absurd (omega (arith, leb→le _ _ h)))
      (λ _.
        if_cases (Contiguous from) (leb (length (entries l)) n) _ _ (λ _. tt)
          (λ _.
            subst (λ k. Contiguous k (drop n (entries l))) e
              (Contiguous-drop l.sentinel.index n (entries l) (refl, v.contiguous))))

take_committed_above :
    (commit i : LogIndex) (es : List LogEntry)
    → Contiguous i es
    → commit < i
    → take_committed commit es ≡ []
unfolding take_committed
take_committed_above commit i [] c h = refl
take_committed_above commit i (e ∷ es) c h = ground arith

pub take_committed-Contiguous :
    (commit i : LogIndex) (es : List LogEntry)
    → Contiguous i es
    → Contiguous i (take_committed commit es)
unfolding take_committed
take_committed-Contiguous commit i [] c = tt
take_committed-Contiguous commit i (e ∷ es) c =
    if_cases (Contiguous i) (leb e.index commit) _ _
      (λ _. (c.0, take_committed-Contiguous commit (suc i) es c.1)) (λ _. tt)

take_committed-length :
    (commit i : LogIndex) (es : List LogEntry)
    → Contiguous i es
    → i ≤ commit
    → commit < i + length es
    → length (take_committed commit es) ≡ suc (commit - i)
unfolding take_committed
take_committed-length commit i [] c lo hi = absurd (omega arith)
take_committed-length commit i (e ∷ es) c lo hi =
    rw (le→leb e.index commit (omega (arith, c.0))) (elim (dec_le (suc i) commit) [
      | yes more ↦ omega (arith, take_committed-length commit (suc i) es c.1 more)
      | no last ↦ rw (take_committed_above commit (suc i) es c.1 (omega arith)) (omega arith)
    ])

take_committed-slot :
    (commit i : LogIndex) (es : List LogEntry) (k : ℕ)
    → Contiguous i es
    → i + k ≤ commit
    → get_elem? (take_committed commit es) k ≡ get_elem? es k
unfolding take_committed
take_committed-slot commit i [] k c h = refl
take_committed-slot commit i (e ∷ es) zero c h =
    rw (le→leb e.index commit (omega (arith, c.0))) refl
take_committed-slot commit i (e ∷ es) (suc k) c h =
    rw (le→leb e.index commit (omega (arith, c.0)))
      (take_committed-slot commit (suc i) es k c.1 (omega arith))

apply_entries_lem :
    (n : RaftNode) (i stop : LogIndex) (es : List LogEntry)
    → Contiguous i es
    → i + length es ≡ suc stop
    → i ≤ stop
    → apply_entries n es ≡ (record n { last_applied = stop }, Action.apply es ∷ [])
unfolding apply_entries
apply_entries_lem n i stop [] c e h = absurd (omega arith)
apply_entries_lem n i stop (x ∷ xs) c e h =
    let last : (last_of x xs).index ≡ stop = omega (arith, c.0, last_of-index x xs (rw c.0 c.1)) in
    rw last

pub entries_from-length :
    {l : RaftLog} (from : LogIndex)
    → IsLog l
    → l.sentinel.index < from
    → from ≤ last_index l
    → from + length (entries_from l from) ≡ suc (last_index l)
unfolding entries_from
entries_from-length {l} from v lo hi =
    ground (arith, last_index_lem v, length-drop (from - l.sentinel.index) (entries l))

-- On a well-formed log that reaches the commit index, with nothing compacted beyond what was applied
-- and a commit index above it, applying hands over exactly the entries after the last one applied
-- up to the commit index, each once and in order, and moves the last applied index to the commit
-- index; no other field changes.
pub apply_committed_entries_lem :
    (n : RaftNode)
    → IsLog n.log
    → n.log.sentinel.index ≤ n.last_applied
    → n.last_applied < n.commit_index
    → n.commit_index ≤ last_index n.log
    → (es : List LogEntry) × (apply_committed_entries n
        ≡ (record n { last_applied = n.commit_index }, Action.apply es ∷ []))
      × IsSlice n.log (n.last_applied + 1) (n.commit_index - n.last_applied) es
unfolding apply_committed_entries
apply_committed_entries_lem n v base lt hi = (es, applied, slice)
  where
    first : LogIndex
    first = n.last_applied + 1

    all : List LogEntry
    all = entries_from n.log first

    es : List LogEntry
    es = take_committed n.commit_index all

    lined : Contiguous first all
    lined = entries_from-Contiguous first v (omega arith)

    reach : first + length all ≡ suc (last_index n.log)
    reach = entries_from-length first v (omega arith) (omega arith)

    size : length es ≡ n.commit_index - n.last_applied
    size = omega (
      arith,
      take_committed-length n.commit_index first all lined (omega arith) (omega (arith, reach)),
    )

    applied :
        apply_committed_entries n
        ≡ (record n { last_applied = n.commit_index }, Action.apply es ∷ [])
    applied =
        rw
          (
            lt→ltb n.last_applied n.commit_index lt,
            next_of_lt n.last_applied (omega (arith, last_index_lem v)),
          )
          (apply_entries_lem n first n.commit_index es
            (take_committed-Contiguous n.commit_index first all lined) (omega (arith, size))
            (omega arith))

    slice : IsSlice n.log first (n.commit_index - n.last_applied) es
    slice = record {
      size = size;
      slot = λ k h.
          take_committed-slot n.commit_index first all k lined (omega arith)
          ∙ entries_from-entry_at n.log first k (omega arith);
    }
