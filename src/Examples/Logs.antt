-- ===== src/Examples/Logs.antt =====
-- A log with a compacted prefix, of raft-core/src/log.rs, and the theorems on logs and on replication
-- at it.
use mathlib.Core.Option
use raft_rupee.Base.{
  ℕ, ◌+◌, ◌-◌, ◌≡◌, refl, List, [], ◌∷◌, Option, none, some, arith, if◌then◌else◌, ltb, leb, ◌==◌,
  get_elem?, unwrap_or, max,
}
use raft_rupee.Types.{next}
use raft_rupee.Message.{LogEntry}
use raft_rupee.Log.{RaftLog, base_entry, compact, entry_at, entries_from, first_index, last_index}
use raft_rupee.Log.Bounds.{IsLog}
use raft_rupee.Log.Edits.{compact_lem, entries_from-entry_at, truncate_and_append-entry_at}
use raft_rupee.Node.State.{RaftNode, Role, Outcome, Action}
use raft_rupee.Node.Commit.{apply_committed_entries, maybe_advance_commit_index}
use raft_rupee.Node.Entries.{conflict_start, backtrack, store_entries}
use raft_rupee.Replication.Advance.{Advances, maybe_advance_commit_index_lem}
use raft_rupee.Replication.Applied.{IsSlice, apply_committed_entries_lem}
use raft_rupee.Replication.Conflict.{IsRunStart, LastWith, conflict_start_lem, backtrack_lem}
use raft_rupee.Replication.Accept.{HasStored, store_entries_lem}
use raft_rupee.Examples.Setup.{program, fresh_node}

-- Indices 3, 4 and 5 after a snapshot of 1 and 2.
abbrev sample : RaftLog
sample = record {
  sentinel = base_entry 2 1;
  rest = base_entry 3 1 ∷ base_entry 4 2 ∷ base_entry 5 2 ∷ [];
}

sample-IsLog : IsLog sample
sample-IsLog = record { contiguous = (refl, (refl, (refl, tt))); fits = omega arith }

-- Entry 5 gives way to others.
abbrev instead : List LogEntry
instead = base_entry 5 3 ∷ base_entry 6 3 ∷ []

truncate_and_append-entry_at_example :
    entry_at (record sample { rest = base_entry 3 1 ∷ base_entry 4 2 ∷ instead }) 6
    ≡ (if ltb 6 5 then entry_at sample 6 else get_elem? instead (6 - 5))
unfolding program
truncate_and_append-entry_at_example =
    truncate_and_append-entry_at 5 instead 6 sample-IsLog (omega arith) refl

compact_lem_example :
    (last_index (compact sample 4 2) ≡ max 4 (last_index sample))
    × (entry_at (compact sample 4 2) 5 ≡ (
        if leb 4 sample.sentinel.index
        then entry_at sample 5
        else if ltb 5 4
        then none
        else if 5 == 4
        then some (base_entry 4 2)
        else entry_at sample 5))
compact_lem_example = compact_lem 4 2 5 sample-IsLog (omega arith)

entries_from-entry_at_example : get_elem? (entries_from sample 4) 1 ≡ entry_at sample (4 + 1)
entries_from-entry_at_example = entries_from-entry_at sample 4 1 (omega arith)

-- A leader of term 2 whose peer 2 has the whole log, and peer 3 nothing.
abbrev leading : RaftNode
leading = record (fresh_node 1) {
  current_term = 2;
  log = sample;
  role = Role.leader;
  commit_index = 3;
  last_applied = 2;
  match_index = λ p. if p == 2 then some 5 else none;
}

maybe_advance_commit_index_lem_example :
    Advances leading (maybe_advance_commit_index leading).0.commit_index
maybe_advance_commit_index_lem_example = maybe_advance_commit_index_lem leading (omega arith)

apply_committed_entries_lem_example :
    (es : List LogEntry) × (apply_committed_entries leading
      ≡ (record leading { last_applied = 3 }, Action.apply es ∷ []))
    × IsSlice sample 3 1 es
unfolding program
apply_committed_entries_lem_example =
    apply_committed_entries_lem leading sample-IsLog (omega arith) (omega arith) (omega arith)

conflict_start_lem_example : IsRunStart sample 2 5 (conflict_start sample 2 5)
unfolding program
conflict_start_lem_example = conflict_start_lem sample 2 5 (omega arith) refl

backtrack_lem_example :
    (o : Option ℕ) × LastWith sample 1 (first_index sample) (last_index sample + 1) o
    × (backtrack leading 3 (some 1) (some 2) ≡ unwrap_or (Option.map next o) (unwrap_or (some 2) 1))
unfolding program
backtrack_lem_example = backtrack_lem leading 3 1 (some 2) (omega arith)

store_entries_lem_example :
    (o : Outcome) × (store_entries leading (base_entry 4 2 ∷ instead) ≡ some o)
    × HasStored sample o.0.log 4 (base_entry 4 2 ∷ instead)
unfolding program
store_entries_lem_example =
    store_entries_lem leading 4 (base_entry 4 2) instead sample-IsLog (omega arith) (omega arith)
      (refl, (refl, (refl, tt))) (omega arith)
