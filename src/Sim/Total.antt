-- ===== src/Sim/Total.antt =====
-- Panics in the checks of raft-sim/src/invariants.rs, whose two `unwrap`s need an entry.
use mathlib.Core.Option
use raft_rupee.Base.{
  refl, zero, suc, ◌≡◌, List, [], ◌∷◌, Option, none, some, true, not, ◌&&◌, ◌||◌, ltb, ◌==◌,
  if_cases, is_some, opt_eq, opt_eq→eq, arith, min, ℕ,
}
use raft_rupee.Types.{LogIndex, Term, NodeId}
use raft_rupee.Message.{LogEntry, Bytes}
use raft_rupee.Log.{RaftLog, entry_at, term_at, first_index, last_index}
use raft_rupee.Log.Bounds.{term_at-entry_at}
use raft_rupee.Node.State.{RaftNode, is_leader}
use raft_rupee.Sim.Invariants.{
  SafetyInvariants, Verdict, and_then, check_known, check_leader, check_election_safety, bytes_eq,
  check_commands, check_index, check_indices, check_against, check_log_matching,
  check_leader_append_only, check_committed, check_applied_entry, check_applied,
  check_state_machine_safety, verify_safety,
}

-- The verdict is no panic.
abbrev pub Decides : Verdict → Type 0
Decides Verdict.panic = ⊥
Decides _ = Unit {0}

and_then-Decides :
    (v : Verdict) (f : SafetyInvariants → Verdict)
    → Decides v
    → ((s : SafetyInvariants) → Decides (f s))
    → Decides (and_then v f)
and_then-Decides (Verdict.ok s) f d g = g s
and_then-Decides (Verdict.violation _) f d g = tt
and_then-Decides Verdict.panic f d g = d

check_leader-Decides : (n : RaftNode) (s : SafetyInvariants) → Decides (check_leader n s)
unfolding check_leader check_known
check_leader-Decides n s =
    if_cases Decides (is_leader n.role) _ _ (λ _. known (s.term_leaders n.current_term)) (λ _. tt)
  where
    known : (found : Option NodeId) → Decides (check_known n found s)
    known none = tt
    known (some k) = if_cases Decides (not (k == n.id)) _ _ (λ _. tt) (λ _. tt)

check_election_safety-Decides :
    (nodes : List RaftNode) (s : SafetyInvariants) → Decides (check_election_safety nodes s)
unfolding check_election_safety
check_election_safety-Decides [] s = tt
check_election_safety-Decides (n ∷ nodes) s =
    and_then-Decides (check_leader n s) _ (check_leader-Decides n s)
      (check_election_safety-Decides nodes)

check_commands-Decides :
    (a b : Option LogEntry) (s : SafetyInvariants)
    → is_some a ≡ true
    → is_some b ≡ true
    → Decides (check_commands a b s)
unfolding check_commands
check_commands-Decides (some e) (some f) s h k =
    if_cases Decides (bytes_eq e.command f.command) _ _ (λ _. tt) (λ _. tt)
check_commands-Decides none _ s h k = ground arith
check_commands-Decides (some e) none s h k = ground arith

-- An index with a term has an entry.
is_some-entry_at :
    (l : RaftLog) (i : LogIndex) → is_some (term_at l i) ≡ true → is_some (entry_at l i) ≡ true
is_some-entry_at l i h =
    let g : is_some (Option.map (λ (e : LogEntry). e.term) (entry_at l i)) ≡ true =
      rw (term_at-entry_at l i) at h in
    mapped (entry_at l i) g
  where
    mapped :
        (o : Option LogEntry)
        → is_some (Option.map (λ (e : LogEntry). e.term) o) ≡ true
        → is_some o ≡ true
    mapped none g = g
    mapped (some e) g = refl

check_index-Decides :
    (l1 l2 : RaftLog) (i : LogIndex) (s : SafetyInvariants) → Decides (check_index l1 l2 i s)
unfolding check_index
check_index-Decides l1 l2 i s =
    if_cases Decides (is_some (term_at l1 i) && opt_eq (term_at l1 i) (term_at l2 i)) _ _
      (λ same.
        if_cases Decides (ltb (first_index l1) i && ltb (first_index l2) i) _ _
          (λ _.
            let one : is_some (term_at l1 i) ≡ true = ground (arith, same) in
            let e : term_at l1 i ≡ term_at l2 i =
              opt_eq→eq (term_at l1 i) (term_at l2 i) (ground (arith, same)) in
            check_commands-Decides (entry_at l1 i) (entry_at l2 i) s (is_some-entry_at l1 i one)
              (is_some-entry_at l2 i (rw e at one)))
          (λ _. tt))
      (λ _. tt)

check_indices-Decides :
    (l1 l2 : RaftLog) (last : ℕ) (s : SafetyInvariants) → Decides (check_indices l1 l2 last s)
unfolding check_indices
check_indices-Decides l1 l2 zero s = tt
check_indices-Decides l1 l2 (suc last) s =
    and_then-Decides (check_indices l1 l2 last s) _ (check_indices-Decides l1 l2 last s)
      (check_index-Decides l1 l2 (suc last))

check_against-Decides :
    (n : RaftNode) (nodes : List RaftNode) (s : SafetyInvariants)
    → Decides (check_against n nodes s)
unfolding check_against
check_against-Decides n [] s = tt
check_against-Decides n (m ∷ nodes) s =
    and_then-Decides (check_indices n.log m.log (min (last_index n.log) (last_index m.log)) s) _
      (check_indices-Decides n.log m.log _ s) (check_against-Decides n nodes)

check_log_matching-Decides :
    (nodes : List RaftNode) (s : SafetyInvariants) → Decides (check_log_matching nodes s)
unfolding check_log_matching
check_log_matching-Decides [] s = tt
check_log_matching-Decides (n ∷ nodes) s =
    and_then-Decides (check_against n nodes s) _ (check_against-Decides n nodes s)
      (check_log_matching-Decides nodes)

check_committed-Decides :
    (i : LogIndex) (e : LogEntry) (found : Option (Term × Bytes)) (s : SafetyInvariants)
    → Decides (check_committed i e found s)
unfolding check_committed
check_committed-Decides i e none s = tt
check_committed-Decides i e (some (t, c)) s =
    if_cases Decides (not (t == e.term) || not (bytes_eq c e.command)) _ _ (λ _. tt) (λ _. tt)

check_applied_entry-Decides :
    (i : LogIndex) (e : Option LogEntry) (s : SafetyInvariants)
    → Decides (check_applied_entry i e s)
unfolding check_applied_entry
check_applied_entry-Decides i none s = tt
check_applied_entry-Decides i (some e) s =
    if_cases Decides (bytes_eq e.command []) _ _ (λ _. tt)
      (λ _. check_committed-Decides i e (s.committed_entries i) s)

check_applied-Decides :
    (n : RaftNode) (last : ℕ) (s : SafetyInvariants) → Decides (check_applied n last s)
unfolding check_applied
check_applied-Decides n zero s = tt
check_applied-Decides n (suc last) s =
    and_then-Decides (check_applied n last s) _ (check_applied-Decides n last s)
      (check_applied_entry-Decides (suc last) (entry_at n.log (suc last)))

check_state_machine_safety-Decides :
    (nodes : List RaftNode) (s : SafetyInvariants) → Decides (check_state_machine_safety nodes s)
unfolding check_state_machine_safety
check_state_machine_safety-Decides [] s = tt
check_state_machine_safety-Decides (n ∷ nodes) s =
    and_then-Decides (check_applied n n.last_applied s) _ (check_applied-Decides n n.last_applied s)
      (check_state_machine_safety-Decides nodes)

-- Whatever the nodes and the record are, the checks of the simulator decide: none of them panics.
pub verify_safety-Decides :
    (nodes : List RaftNode) (s : SafetyInvariants) → Decides (verify_safety nodes s)
unfolding verify_safety check_leader_append_only
verify_safety-Decides nodes s =
    and_then-Decides (check_election_safety nodes s) _ (check_election_safety-Decides nodes s)
      (λ s1.
        and_then-Decides (check_log_matching nodes s1) _ (check_log_matching-Decides nodes s1)
          (check_state_machine_safety-Decides nodes))
