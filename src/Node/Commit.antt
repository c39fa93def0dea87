-- ===== src/Node/Commit.antt =====
-- raft-core/src/node.rs: `maybe_advance_commit_index` and `apply_committed_entries`.
use raft_rupee.Base.{
  ℕ, zero, suc, ◌+◌, ◌-◌, ◌/◌, List, [], ◌∷◌, some, Bool, length, last_of, ltb, leb, if◌then◌else◌,
  opt_eq, ◌&&◌, add64, HashMap, unwrap_or,
}
use raft_rupee.Types.{LogIndex, NodeId, sentinel_index, next}
use raft_rupee.Message.{LogEntry}
use raft_rupee.Log.{last_index, term_at, entries_from}
use raft_rupee.Node.State.{RaftNode, Action, Outcome, done, push}

-- `(self.peers.len() + 1) / 2 + 1`
abbrev pub majority : RaftNode → ℕ
majority n = (length n.peers + 1) / 2 + 1

-- The peers whose match index has reached `i`.
unfoldable pub count_matching : HashMap LogIndex → LogIndex → List NodeId → ℕ
count_matching m i [] = 0
count_matching m i (p ∷ ps) =
    (if leb i (unwrap_or (m p) sentinel_index) then 1 else 0) + count_matching m i ps

-- The two tests of the loop body: the entry is of the current term, and a majority has it.
unfoldable pub is_committable : RaftNode → LogIndex → Bool
is_committable n i =
    opt_eq (term_at n.log i) (some n.current_term)
    && leb (majority n) (1 + count_matching n.match_index i n.peers)

-- `rounds` rounds of the loop from index `i` on.
unfoldable pub scan_commit : RaftNode → ℕ → LogIndex → LogIndex → LogIndex
scan_commit n zero i new_commit = new_commit
scan_commit n (suc rounds) i new_commit =
    scan_commit n rounds (suc i) (if is_committable n i then i else new_commit)

-- `.take_while(|e| e.index <= commit)`
unfoldable pub take_committed : LogIndex → List LogEntry → List LogEntry
take_committed commit [] = []
take_committed commit (e ∷ es) = if leb e.index commit then e ∷ take_committed commit es else []

-- Nothing to apply is no action.
unfoldable pub apply_entries : RaftNode → List LogEntry → Outcome
apply_entries n [] = done n
apply_entries n (e ∷ es) =
    push (record n { last_applied = (last_of e es).index }) (Action.apply (e ∷ es))

unfoldable pub apply_committed_entries : RaftNode → Outcome
apply_committed_entries n =
    if ltb n.last_applied n.commit_index
    then apply_entries n (take_committed n.commit_index (entries_from n.log (next n.last_applied)))
    else done n

-- The commit index moves, and what became committed is applied.
unfoldable pub commit_to : RaftNode → LogIndex → Outcome
commit_to n i =
    if ltb n.commit_index i then apply_committed_entries (record n { commit_index = i }) else done n

unfoldable pub maybe_advance_commit_index : RaftNode → Outcome
maybe_advance_commit_index n =
    let start = add64 n.commit_index 1 in
    commit_to n (scan_commit n (suc (last_index n.log) - start) start n.commit_index)
