-- ===== src/Node/Entries.antt =====
-- raft-core/src/node.rs: `handle_append_entries` and its response.
use mathlib.Core.Option
use raft_rupee.Base.{
  ℕ, zero, suc, ◌+◌, ◌-◌, List, [], ◌∷◌, ◌++◌, Option, none, some, Bool, true, false, not, ◌&&◌,
  ◌||◌, length, drop, min, ltb, ◌==◌, if◌then◌else◌, opt_eq, map_insert, unwrap_or, sub64,
}
use raft_rupee.Types.{Term, LogIndex, NodeId, next, prev}
use raft_rupee.Message.{LogEntry, MessageKind}
use raft_rupee.Log.{RaftLog, last_index, first_index, term_at, truncate_and_append}
use raft_rupee.Node.State.{is_leader, RaftNode, Rng, Action, Outcome, done, push, ◌▷◌, reply}
use raft_rupee.Node.Replicate.{replicate_to_peer}
use raft_rupee.Node.Commit.{commit_to, maybe_advance_commit_index}
use raft_rupee.Node.Election.{become_follower}

-- The `while` loop back from a conflict: the first index of the run of entries of term `t`.
unfoldable pub conflict_start : RaftLog → Term → LogIndex → LogIndex
conflict_start l t zero = zero
conflict_start l t (suc i) =
    let earlier = conflict_start l t i in
    if ltb (first_index l) (suc i) && opt_eq (term_at l i) (some t) then earlier else suc i

-- The `for` loop over the entries: the index after the last entry that the log already has.
unfoldable pub attach_index : RaftLog → LogIndex → List LogEntry → LogIndex
attach_index l attach [] = attach
attach_index l attach (e ∷ es) =
    let rest = attach_index l (next e.index) es in
    if opt_eq (term_at l e.index) (some e.term) then rest else attach

-- The suffix that the log lacks is stored; `none` is a panic of `RaftLog::truncate_and_append`.
unfoldable pub store_entries : RaftNode → List LogEntry → Option Outcome
store_entries n [] = some (done n)
store_entries n (e ∷ es) =
    let attach = attach_index n.log e.index (e ∷ es) in
    let start_offset = sub64 attach e.index in
    let suffix = drop start_offset (e ∷ es) in
    if ltb start_offset (length (e ∷ es))
    then Option.map {A = RaftLog}
        (λ l. push (record n { log = l }) (Action.truncate_and_append attach suffix))
        (truncate_and_append n.log attach suffix)
    else some (done n)

-- `leader_commit` is followed up to the last index of the log.
unfoldable pub follow_commit : LogIndex → RaftNode → Outcome
follow_commit leader_commit n =
    if ltb n.commit_index leader_commit
    then commit_to n (min leader_commit (last_index n.log))
    else done n

abbrev pub append_reply : RaftNode → NodeId → Bool → Option Term → Option LogIndex → Action
append_reply n to success conflict_term conflict_index =
    reply n to (MessageKind.append_entries_response success conflict_term conflict_index)

-- The `match` on the local term at the previous index, as a function of it.
unfoldable pub check_previous :
    RaftNode → NodeId → LogIndex → Term → List LogEntry → LogIndex → Option Term → Option Outcome
check_previous n from prev_log_index prev_log_term entries leader_commit none =
    some (push n (append_reply n from false none (some (next (last_index n.log)))))
check_previous n from prev_log_index prev_log_term entries leader_commit (some t) =
    if t == prev_log_term
    then Option.map {A = Outcome}
        (λ o. o ▷ follow_commit leader_commit ▷ λ m. push m (append_reply m from true none none))
        (store_entries n entries)
    else some
        (push n (append_reply n from false (some t) (some (conflict_start n.log t prev_log_index))))

module _ (r : Rng) where
  unfoldable pub handle_append_entries :
      RaftNode → NodeId → Term → LogIndex → Term → List LogEntry → LogIndex → Option Outcome
  handle_append_entries n from term prev_log_index prev_log_term entries leader_commit =
      let o = become_follower r term (some from) n in
      if ltb term n.current_term
      then some (push n (append_reply n from false none none))
      else Option.map {A = Outcome} (λ p. (p.0, o.1 ++ p.1))
          (check_previous o.0 from prev_log_index prev_log_term entries leader_commit
            (term_at o.0.log prev_log_index))

-- The last index, among `rounds` of them from `first` on, at which the log has term `t`.
unfoldable pub last_of_term : RaftLog → Term → LogIndex → ℕ → Option LogIndex
last_of_term l t first zero = none
last_of_term l t first (suc rounds) =
    let earlier = last_of_term l t first rounds in
    if opt_eq (term_at l (first + rounds)) (some t) then some (first + rounds) else earlier

-- The next index for a peer that refused, before the final `max` with 1.
unfoldable pub backtrack : RaftNode → NodeId → Option Term → Option LogIndex → LogIndex
backtrack n from (some t) conflict_index =
    let first = first_index n.log in
    elim (last_of_term n.log t first (suc (last_index n.log) - first)) [
      | some last ↦ next last
      | none ↦ unwrap_or conflict_index 1
    ]
backtrack n from none (some i) = i
backtrack n from none none = prev (unwrap_or (n.next_index from) 1)

unfoldable pub handle_append_entries_response :
    RaftNode → NodeId → Term → Bool → Option Term → Option LogIndex → Outcome
handle_append_entries_response n from term success conflict_term conflict_index =
    let last = last_index n.log in
    let acked = record n {
      next_index = map_insert from (next last) n.next_index;
      match_index = map_insert from last n.match_index;
    } in
    let back = backtrack n from conflict_term conflict_index in
    let retry = record n {
      next_index = map_insert from (if back == 0 then 1 else back) n.next_index;
    } in
    if not (is_leader n.role) || not (term == n.current_term)
    then done n
    else if success
    then maybe_advance_commit_index acked
    else push retry (replicate_to_peer retry from)
