-- ===== src/Liveness/Alone.antt =====
-- A leader without peers in raft-core/src/node.rs: its commits.
use mathlib.Core.Option
use raft_rupee.Base.{
  suc, ◌+◌, ◌-◌, ◌≤◌, ◌≡◌, ◌∙◌, refl, inl, inr, [], ◌∷◌, some, true, arith, length, ltb, ==_iff, ap,
  length-append,
}
use raft_rupee.Types.{next}
use raft_rupee.Message.{Bytes, LogEntry}
use raft_rupee.Log.{append, entry_at, last_index}
use raft_rupee.Log.Bounds.{term_at-entry_at, last_index_lem}
use raft_rupee.Log.Edits.{append-entry_at}
use raft_rupee.Node.State.{RaftNode, ◌▷◌, is_leader}
use raft_rupee.Node.Commit.{maybe_advance_commit_index}
use raft_rupee.Node.Election.{is_alone}
use raft_rupee.Node.Step.{add_entry, propose}
use raft_rupee.Replication.Acked.{MayCommit}
use raft_rupee.Replication.Advance.{maybe_advance_commit_index_lem}
use raft_rupee.Replication.Leader.{maybe_advance_commit_index-log}
use raft_rupee.Progress.Sound.{IsSound, HasLogRoom}
use raft_rupee.Progress.Elections.{append_one-IsLog}

-- The entry that a leader makes of a command.
abbrev pub proposal : RaftNode → Bytes → LogEntry
proposal n command = record {
  index = next (last_index n.log);
  term = n.current_term;
  command = command;
}

add_entry-entry_at :
    (n : RaftNode) (command : Bytes)
    → IsSound n
    → HasLogRoom n
    → entry_at (add_entry n command).0.log (last_index n.log + 1) ≡ some (proposal n command)
unfolding add_entry
add_entry-entry_at n command s room =
    let slot = append-entry_at (proposal n command ∷ []) (last_index n.log + 1) s.log in
    let t : ltb (last_index n.log) (last_index n.log + 1) ≡ true = ground arith in
    let z : last_index n.log + 1 - suc (last_index n.log) ≡ 0 = omega arith in slot ∙ rw (t, z) refl

last_index-add_entry :
    (n : RaftNode) (command : Bytes)
    → IsSound n
    → HasLogRoom n
    → last_index (add_entry n command).0.log ≡ last_index n.log + 1
unfolding add_entry append
last_index-add_entry n command s room =
    let e = proposal n command in
    omega (
      arith,
      last_index_lem (append_one-IsLog e s.log room refl),
      last_index_lem s.log,
      length-append n.log.rest (e ∷ []),
    )

-- Alone, the leader itself is a majority.
add_entry-MayCommit :
    (n : RaftNode) (command : Bytes)
    → is_alone n ≡ true
    → IsSound n
    → HasLogRoom n
    → MayCommit (add_entry n command).0 (last_index n.log + 1)
unfolding add_entry
add_entry-MayCommit n command a s room =
    let m = (add_entry n command).0 in
    let none : length n.peers ≡ 0 = (==_iff (length n.peers) 0).0 a in
    (
      term_at-entry_at m.log (last_index n.log + 1)
          ∙ ap (Option.map (λ (e : LogEntry). e.term)) (add_entry-entry_at n command s room),
      0,
      tt,
      omega (arith, none),
    )

committed_alone :
    (n : RaftNode) (command : Bytes)
    → is_alone n ≡ true
    → IsSound n
    → HasLogRoom n
    → n.commit_index ≤ last_index n.log
    → (maybe_advance_commit_index (add_entry n command).0).0.commit_index ≡ last_index n.log + 1
unfolding add_entry
committed_alone n command a s room hi =
    let m = (add_entry n command).0 in
    let (reached, all_below) = maybe_advance_commit_index_lem m (omega (arith, hi, room)) in
    let last = last_index-add_entry n command s room in
    let up =
      all_below (last_index n.log + 1) (omega (arith, last))
        (add_entry-MayCommit n command a s room) in
    elim reached [ inl same ↦ omega (arith, same, hi, up) | inr f ↦ omega (arith, f.1, last, up) ]

-- A leader without peers commits a proposal at once: on a sound node with room in the log, and with a
-- commit index within the log, the new last index holds the command under the leader's term and is
-- the new commit index.
pub propose_alone :
    (n : RaftNode) (command : Bytes)
    → is_alone n ≡ true
    → is_leader n.role ≡ true
    → IsSound n
    → HasLogRoom n
    → n.commit_index ≤ last_index n.log
    → ((propose n command).0.commit_index ≡ last_index n.log + 1)
      × (entry_at (propose n command).0.log (last_index n.log + 1) ≡ some (proposal n command))
unfolding propose ◌▷◌ add_entry
propose_alone n command a l s room hi =
    let log = maybe_advance_commit_index-log (add_entry n command).0 in
    rw (l, a) (committed_alone n command a s room hi, rw log (add_entry-entry_at n command s room))
