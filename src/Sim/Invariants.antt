-- ===== src/Sim/Invariants.antt =====
-- raft-sim/src/invariants.rs: the checks that the simulator makes after every tick, on the nodes in
-- the order in which the map yields them.
use raft_rupee.Base.{
  ℕ, zero, suc, List, [], ◌∷◌, Option, none, some, Bool, true, false, not, ◌&&◌, ◌||◌, ltb, ◌==◌,
  if◌then◌else◌, opt_eq, is_some, HashMap, empty_map, map_insert, min,
}
use raft_rupee.Types.{Term, LogIndex, NodeId}
use raft_rupee.Message.{Bytes, LogEntry}
use raft_rupee.Log.{RaftLog, first_index, last_index, entry_at, term_at}
use raft_rupee.Node.State.{RaftNode, is_leader}

pub record SafetyInvariants : Type 0 where
  pub term_leaders : HashMap NodeId
  pub committed_entries : HashMap (Term × Bytes)

-- `SafetyInvariants::new`
unfoldable pub new : SafetyInvariants
new = record { term_leaders = empty_map; committed_entries = empty_map }

-- What a check returns, with the record as it leaves it, or that it panics.
pub data Verdict : Type 0 where
  ok : SafetyInvariants → Verdict
  violation : SafetyInvariants → Verdict
  panic : Verdict

-- `?` between two checks.
abbrev pub and_then : Verdict → (SafetyInvariants → Verdict) → Verdict
and_then (Verdict.ok s) f = f s
and_then (Verdict.violation s) f = Verdict.violation s
and_then Verdict.panic f = Verdict.panic

-- A leader against the leader on record for its term.
unfoldable pub check_known : RaftNode → Option NodeId → SafetyInvariants → Verdict
check_known n none s =
    Verdict.ok (record s { term_leaders = map_insert n.current_term n.id s.term_leaders })
check_known n (some existing_leader) s =
    if not (existing_leader == n.id) then Verdict.violation s else Verdict.ok s

-- The body of the loop of `check_election_safety`.
unfoldable pub check_leader : RaftNode → SafetyInvariants → Verdict
check_leader n s =
    if is_leader n.role then check_known n (s.term_leaders n.current_term) s else Verdict.ok s

unfoldable pub check_election_safety : List RaftNode → SafetyInvariants → Verdict
check_election_safety [] s = Verdict.ok s
check_election_safety (n ∷ nodes) s = and_then (check_leader n s) (check_election_safety nodes)

-- `==` on commands.
abbrev pub bytes_eq : Bytes → Bytes → Bool
bytes_eq [] [] = true
bytes_eq [] (_ ∷ _) = false
bytes_eq (_ ∷ _) [] = false
bytes_eq (a ∷ xs) (b ∷ ys) = a == b && bytes_eq xs ys

-- The comparison of two nodes at an index; the two `unwrap`s may panic.
unfoldable pub check_commands : Option LogEntry → Option LogEntry → SafetyInvariants → Verdict
check_commands (some e1) (some e2) s =
    if bytes_eq e1.command e2.command then Verdict.ok s else Verdict.violation s
check_commands none _ s = Verdict.panic
check_commands (some _) none s = Verdict.panic

unfoldable pub check_index : RaftLog → RaftLog → LogIndex → SafetyInvariants → Verdict
check_index l1 l2 index s =
    if is_some (term_at l1 index) && opt_eq (term_at l1 index) (term_at l2 index)
    then (if ltb (first_index l1) index && ltb (first_index l2) index
        then check_commands (entry_at l1 index) (entry_at l2 index) s
        else Verdict.ok s)
    else Verdict.ok s

-- The indices 1 to `last`, in order.
unfoldable pub check_indices : RaftLog → RaftLog → (last : ℕ) → SafetyInvariants → Verdict
check_indices l1 l2 zero s = Verdict.ok s
check_indices l1 l2 (suc last) s =
    and_then (check_indices l1 l2 last s) (check_index l1 l2 (suc last))

-- The inner loop: one node against those after it.
unfoldable pub check_against : RaftNode → List RaftNode → SafetyInvariants → Verdict
check_against n [] s = Verdict.ok s
check_against n (m ∷ nodes) s =
    and_then (check_indices n.log m.log (min (last_index n.log) (last_index m.log)) s)
      (check_against n nodes)

unfoldable pub check_log_matching : List RaftNode → SafetyInvariants → Verdict
check_log_matching [] s = Verdict.ok s
check_log_matching (n ∷ nodes) s = and_then (check_against n nodes s) (check_log_matching nodes)

-- The check of leader append-only looks at nothing.
unfoldable pub check_leader_append_only : List RaftNode → SafetyInvariants → Verdict
check_leader_append_only nodes s = Verdict.ok s

-- An applied entry with a command against what is recorded at its index.
unfoldable pub check_committed :
    LogIndex → LogEntry → Option (Term × Bytes) → SafetyInvariants → Verdict
check_committed index e none s =
    Verdict.ok
      (record s { committed_entries = map_insert index (e.term, e.command) s.committed_entries })
check_committed index e (some (term, cmd)) s =
    if not (term == e.term) || not (bytes_eq cmd e.command)
    then Verdict.violation s
    else Verdict.ok s

unfoldable pub check_applied_entry : LogIndex → Option LogEntry → SafetyInvariants → Verdict
check_applied_entry index none s = Verdict.ok s
check_applied_entry index (some e) s =
    if bytes_eq e.command []
    then Verdict.ok s
    else check_committed index e (s.committed_entries index) s

-- The indices 1 to `last` of one node, in order.
unfoldable pub check_applied : RaftNode → (last : ℕ) → SafetyInvariants → Verdict
check_applied n zero s = Verdict.ok s
check_applied n (suc last) s =
    and_then (check_applied n last s) (check_applied_entry (suc last) (entry_at n.log (suc last)))

-- A node that has applied nothing has no index to look at.
unfoldable pub check_state_machine_safety : List RaftNode → SafetyInvariants → Verdict
check_state_machine_safety [] s = Verdict.ok s
check_state_machine_safety (n ∷ nodes) s =
    and_then (check_applied n n.last_applied s) (check_state_machine_safety nodes)

unfoldable pub verify_safety : List RaftNode → SafetyInvariants → Verdict
verify_safety nodes s = and_then (check_election_safety nodes s) (λ s1.
    and_then (check_log_matching nodes s1)
      (λ s2. and_then (check_leader_append_only nodes s2) (check_state_machine_safety nodes)))
