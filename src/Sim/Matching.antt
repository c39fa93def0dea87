-- ===== src/Sim/Matching.antt =====
-- What `check_log_matching` of raft-sim/src/invariants.rs finds out.
use mathlib.Core.Option
use raft_rupee.Base.{
  ℕ, zero, suc, ◌≤◌, ◌<◌, ◌≡◌, ◌∙◌, sym, ap, refl, inl, inr, List, [], ◌∷◌, some, true, ltb,
  opt_eq_refl, arith, All, Bool-cases, min, dec_le, subst,
}
use raft_rupee.Types.{LogIndex}
use raft_rupee.Message.{LogEntry, Bytes}
use raft_rupee.Log.{RaftLog, entry_at, term_at, first_index, last_index}
use raft_rupee.Log.Bounds.{IsLog, term_at-entry_at}
use raft_rupee.Node.State.{RaftNode}
use raft_rupee.Replication.Attach.{term_at-le}
use raft_rupee.Sim.Invariants.{
  SafetyInvariants, Verdict, and_then, bytes_eq, check_commands, check_index, check_indices,
  check_against, check_log_matching,
}

-- Above both bases, entries of one index and one term hold one command.
abbrev pub LogsMatch : RaftLog → RaftLog → Type 0
LogsMatch l1 l2 =
    (i : LogIndex) (e1 e2 : LogEntry)
    → first_index l1 < i
    → first_index l2 < i
    → entry_at l1 i ≡ some e1
    → entry_at l2 i ≡ some e2
    → e1.term ≡ e2.term
    → e1.command ≡ e2.command

-- Each node against those after it.
abbrev pub AllMatch : List RaftNode → Type 0
AllMatch [] = Unit {0}
AllMatch (n ∷ nodes) = All (λ m. LogsMatch n.log m.log) nodes × AllMatch nodes

bytes_eq→eq : (a b : Bytes) → bytes_eq a b ≡ true → a ≡ b
bytes_eq→eq [] [] h = refl
bytes_eq→eq [] (y ∷ b) h = ground arith
bytes_eq→eq (x ∷ a) [] h = ground arith
bytes_eq→eq (x ∷ a) (y ∷ b) h =
    let p : x ≡ y = ground arith in let q : a ≡ b = bytes_eq→eq a b (ground arith) in rw (p, q) refl

-- A check that goes on after another passed only if that one did.
and_then-ok :
    (v : Verdict) (f : SafetyInvariants → Verdict) (t : SafetyInvariants)
    → and_then v f ≡ Verdict.ok t
    → (s : SafetyInvariants) × (v ≡ Verdict.ok s) × (f s ≡ Verdict.ok t)
and_then-ok (Verdict.ok s) f t h = (s, refl, h)
and_then-ok (Verdict.violation _) f t h = cc
and_then-ok Verdict.panic f t h = cc

check_commands_lem :
    (e1 e2 : LogEntry) (s t : SafetyInvariants)
    → check_commands (some e1) (some e2) s ≡ Verdict.ok t
    → e1.command ≡ e2.command
unfolding check_commands
check_commands_lem e1 e2 s t h = elim (Bool-cases (bytes_eq e1.command e2.command)) [
  | inl same ↦ bytes_eq→eq e1.command e2.command same
  | inr other ↦ let k = rw other at h in cc
]

term_at-some :
    (l : RaftLog) (i : LogIndex) (e : LogEntry) → entry_at l i ≡ some e → term_at l i ≡ some e.term
term_at-some l i e h = term_at-entry_at l i ∙ ap (Option.map (λ (x : LogEntry). x.term)) h

check_index_lem :
    (l1 l2 : RaftLog) (i : LogIndex) (e1 e2 : LogEntry) (s t : SafetyInvariants)
    → first_index l1 < i
    → first_index l2 < i
    → entry_at l1 i ≡ some e1
    → entry_at l2 i ≡ some e2
    → e1.term ≡ e2.term
    → check_index l1 l2 i s ≡ Verdict.ok t
    → e1.command ≡ e2.command
unfolding check_index
check_index_lem l1 l2 i e1 e2 s t lo1 lo2 h1 h2 same h =
    let t1 = term_at-some l1 i e1 h1 in
    let t2 : term_at l2 i ≡ some e1.term = term_at-some l2 i e2 h2 ∙ ap (λ x. some x) (sym same) in
    let b1 : ltb (first_index l1) i ≡ true = ground (arith, lo1) in
    let b2 : ltb (first_index l2) i ≡ true = ground (arith, lo2) in
    check_commands_lem e1 e2 s t (rw (t1, t2, opt_eq_refl (some e1.term), b1, b2, h1, h2) at h)

check_indices_lem :
    (l1 l2 : RaftLog) (last : ℕ) (i : LogIndex) (s t : SafetyInvariants)
    → check_indices l1 l2 last s ≡ Verdict.ok t
    → 1 ≤ i
    → i ≤ last
    → (u v : SafetyInvariants) × (check_index l1 l2 i u ≡ Verdict.ok v)
unfolding check_indices
check_indices_lem l1 l2 zero i s t h lo hi = absurd (omega arith)
check_indices_lem l1 l2 (suc last) i s t h lo hi =
    let (u, a, b) = and_then-ok (check_indices l1 l2 last s) _ t h in
    elim (dec_le i last) [
      | yes below ↦ check_indices_lem l1 l2 last i s u a lo below
      | no top ↦
          let e : suc last ≡ i = omega arith in
          (u, t, subst (λ k. check_index l1 l2 k u ≡ Verdict.ok t) e b)
    ]

check_indices-LogsMatch :
    (l1 l2 : RaftLog) (s t : SafetyInvariants)
    → IsLog l1
    → IsLog l2
    → check_indices l1 l2 (min (last_index l1) (last_index l2)) s ≡ Verdict.ok t
    → LogsMatch l1 l2
check_indices-LogsMatch l1 l2 s t v1 v2 h = λ i e1 e2 lo1 lo2 h1 h2 same.
    let hi1 = term_at-le i e1.term v1 (term_at-some l1 i e1 h1) in
    let hi2 = term_at-le i e2.term v2 (term_at-some l2 i e2 h2) in
    let (u, v, c) =
      check_indices_lem l1 l2 (min (last_index l1) (last_index l2)) i s t h (omega (arith, lo1))
        (omega (arith, hi1, hi2)) in
    check_index_lem l1 l2 i e1 e2 u v lo1 lo2 h1 h2 same c

check_against-LogsMatch :
    (n : RaftNode) (nodes : List RaftNode) (s t : SafetyInvariants)
    → IsLog n.log
    → All (λ m. IsLog m.log) nodes
    → check_against n nodes s ≡ Verdict.ok t
    → All (λ m. LogsMatch n.log m.log) nodes
unfolding check_against
check_against-LogsMatch n [] s t v vs h = tt
check_against-LogsMatch n (m ∷ nodes) s t v vs h =
    let (u, a, b) = and_then-ok (check_indices n.log m.log _ s) _ t h in
    (check_indices-LogsMatch n.log m.log s u v vs.0 a, check_against-LogsMatch n nodes u t v vs.1 b)

-- Where the check of log matching passes on nodes with well-formed logs, the logs do match, two by
-- two: entries of the same index and term that neither node has compacted hold the same command.
pub check_log_matching-AllMatch :
    (nodes : List RaftNode) (s t : SafetyInvariants)
    → All (λ m. IsLog m.log) nodes
    → check_log_matching nodes s ≡ Verdict.ok t
    → AllMatch nodes
unfolding check_log_matching
check_log_matching-AllMatch [] s t v h = tt
check_log_matching-AllMatch (n ∷ nodes) s t v h =
    let (u, a, b) = and_then-ok (check_against n nodes s) _ t h in
    (check_against-LogsMatch n nodes s u v.0 v.1 a, check_log_matching-AllMatch nodes u t v.1 b)
