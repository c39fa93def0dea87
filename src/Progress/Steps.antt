-- ===== src/Progress/Steps.antt =====
-- Compaction, snapshots and proposals of raft-core/src/node.rs, and the soundness of a node.
use raft_rupee.Base.{
  ◌+◌, ◌<◌, refl, Bool, arith, u64_mod, if_cases, ltb, leb, leb-false→lt, not, ◌||◌, ◌==◌,
}
use raft_rupee.Types.{LogIndex, Term, NodeId}
use raft_rupee.Message.{Bytes, Message}
use raft_rupee.Log.Edits.{install_snapshot-IsLog, compact-IsLog}
use raft_rupee.Node.State.{RaftNode, Outcome, is_leader}
use raft_rupee.Node.Replicate.{broadcast_append_entries}
use raft_rupee.Node.Election.{is_alone}
use raft_rupee.Node.Snapshot.{compact_logs, take_snapshot, handle_install_snapshot_response}
use raft_rupee.Node.Step.{add_entry, propose, handle_client_request}
use raft_rupee.Progress.Sound.{
  IsSound, HasLogRoom, Progresses, done-Progresses, push-Progresses, ▷-Progresses,
  Progresses-of_same, broadcast-IsSoundAction,
}
use raft_rupee.Progress.Commits.{maybe_advance_commit_index-Progresses}
use raft_rupee.Progress.Elections.{append_one-IsLog}

pub compact_logs-Progresses :
    (n : RaftNode) (i : LogIndex) (t : Term) (payload : Bytes)
    → IsSound n
    → i + 1 < u64_mod
    → Progresses n (compact_logs n i t payload)
unfolding compact_logs
compact_logs-Progresses n i t payload s fits =
    if_cases {A = Outcome} (Progresses n) (ltb n.commit_index i) _ _ (λ _. done-Progresses n s)
      (λ _. record {
        sound = record { log = compact-IsLog i t s.log fits; applied = s.applied; fits = s.fits };
        commit = omega arith;
        applied = omega arith;
        sends = (tt, tt);
      })

pub take_snapshot-Progresses :
    (from : NodeId) (i : LogIndex) (t : Term) (payload : Bytes) (complete : Bool) (n : RaftNode)
    → IsSound n
    → i + 1 < u64_mod
    → Progresses n (take_snapshot from i t payload complete n)
unfolding take_snapshot
take_snapshot-Progresses from i t payload complete n s fits =
    if_cases {A = Outcome} (Progresses n) (leb i n.commit_index) _ _ (λ _. push-Progresses n _ s tt)
      (λ above.
        let up = leb-false→lt _ _ above in
        if_cases {A = Outcome} (Progresses n) complete _ _
          (λ _. record {
            sound = record {
              log = install_snapshot-IsLog n.log _ fits;
              applied = omega arith;
              fits = omega (arith, fits);
            };
            commit = omega (arith, up);
            applied = omega (arith, up, s.applied);
            sends = (tt, (tt, tt));
          })
          (λ _. push-Progresses n _ s tt))

pub handle_install_snapshot_response-Progresses :
    (n : RaftNode) (from : NodeId) (t : Term)
    → IsSound n
    → Progresses n (handle_install_snapshot_response n from t)
unfolding handle_install_snapshot_response
handle_install_snapshot_response-Progresses n from t s =
    if_cases (Progresses n) (not (is_leader n.role) || not (t == n.current_term)) _ _
      (λ _. done-Progresses n s)
      (λ _.
        Progresses-of_same _ n (refl, refl)
          (maybe_advance_commit_index-Progresses _
            (record { log = s.log; applied = s.applied; fits = s.fits })))

add_entry-Progresses :
    (n : RaftNode) (command : Bytes) → IsSound n → HasLogRoom n → Progresses n (add_entry n command)
unfolding add_entry broadcast_append_entries
add_entry-Progresses n command s room =
    let n' = (add_entry n command).0 in
    let s' : IsSound n' = record {
      log = append_one-IsLog _ s.log room refl;
      applied = s.applied;
      fits = s.fits;
    } in
    record {
      sound = s';
      commit = omega arith;
      applied = omega arith;
      sends = (tt, broadcast-IsSoundAction n' s'.log);
    }

-- A sound node whose log has room for one more entry stays sound under a proposal, lowers neither
-- its commit index nor its last applied index, and sends sound messages only.
pub propose-Progresses :
    (n : RaftNode) (command : Bytes) → IsSound n → HasLogRoom n → Progresses n (propose n command)
unfolding propose
propose-Progresses n command s room =
    let o = add_entry n command in
    if_cases (Progresses n) (is_leader n.role) _ _
      (λ _. ▷-Progresses o _ (add_entry-Progresses n command s room) (λ s'.
        if_cases (Progresses o.0) (is_alone o.0) _ _
          (λ _. maybe_advance_commit_index-Progresses o.0 s') (λ _. done-Progresses o.0 s')))
      (λ _. done-Progresses n s)

pub handle_client_request-Progresses :
    (n : RaftNode) (msg : Message) (command : Bytes)
    → IsSound n
    → HasLogRoom n
    → Progresses n (handle_client_request n msg command)
unfolding handle_client_request
handle_client_request-Progresses n msg command s room =
    if_cases (Progresses n) (is_leader n.role) _ _
      (λ _.
        ▷-Progresses (propose n command) _ (propose-Progresses n command s room)
          (λ s'. push-Progresses _ _ s' tt))
      (λ _. push-Progresses n _ s tt)
