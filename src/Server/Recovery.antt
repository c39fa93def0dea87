-- ===== src/Server/Recovery.antt =====
-- raft-server/src/main.rs: the node that a start of the server recovers from its files.
use raft_rupee.Base.{ℕ, ◌+◌, ◌^◌, ◌<◌, ◌≡◌, refl, ap, ◌∙◌, false, List, Option, some, unwrap_or}
use raft_rupee.Types.{Term, NodeId, sentinel_index}
use raft_rupee.Message.{LogEntry}
use raft_rupee.Log
use raft_rupee.Node.Replicate.{no_snapshot}
use raft_rupee.Node.State.{Config, restore}
use raft_rupee.Server.Os.{System, IsSystem, DurableDisk, ok, call, get_hs, get_wal, and_then_ok}
use raft_rupee.Server.Storage.{
  new_buffer, write_hard_state, read_hard_state, replay, replayed, replay_wal,
}
use raft_rupee.Server.HardState.{stored_vote, read-write_hard_state}
use raft_rupee.Server.Main.{Setting, recover}

module _ (os : System) (calm : (time : ℕ) → os.fails time ≡ false) where
  read_hard_state-wal : (d : DurableDisk) → (read_hard_state os d).1.wal_file ≡ d.wal_file
  unfolding read_hard_state new_buffer call get_hs
  read_hard_state-wal d = rw (calm (d.time + 1)) refl

  replay_wal-ok :
      (d : DurableDisk) (old : List LogEntry)
      → replay os d.wal_file ≡ some old
      → (replay_wal os d).0 ≡ ok old
  unfolding replay_wal replayed call get_wal
  replay_wal-ok d old read = rw (calm d.time, calm (d.time + 1), read) refl

-- The node has the last hard state that was written, and the entries that a replay yields.
pub recover_lem :
    (s : Setting) (config : Config) (term : Term) (voted_for : Option NodeId) (d d' : DurableDisk)
    (old : List LogEntry)
    → IsSystem s.os
    → ((time : ℕ) → s.os.fails time ≡ false)
    → term < 2 ^ 64
    → unwrap_or voted_for 0 < 2 ^ 64
    → (write_hard_state s.os term voted_for d).0 ≡ ok tt
    → d'.hs_file ≡ (write_hard_state s.os term voted_for d).1.hs_file
    → replay s.os d'.wal_file ≡ some old
    → (recover s config d').0
      ≡ ok (
          restore s.rng config term
            (stored_vote voted_for)
            (Log.restore no_snapshot old)
            sentinel_index
            sentinel_index)
unfolding recover
recover_lem s config term voted_for d d' old is_os calm ht hv wrote same read =
    let stored : (read_hard_state s.os d').0 ≡ ok (some (term, stored_vote voted_for)) =
      rw (calm (d'.time + 1)) at
        (read-write_hard_state s.os term voted_for d d' is_os ht hv wrote same) in
    let d'' = (read_hard_state s.os d').1 in
    let wal : d''.wal_file ≡ d'.wal_file = read_hard_state-wal s.os calm d' in
    let replayed : (replay_wal s.os d'').0 ≡ ok old =
      replay_wal-ok s.os calm d'' old (ap (replay s.os) wal ∙ read) in
    rw (and_then_ok (read_hard_state s.os d') _ stored)
      (rw (and_then_ok (replay_wal s.os d'') _ replayed) refl)
