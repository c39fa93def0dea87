-- ===== src/Message.antt =====
-- raft-core/src/message.rs: log entries and the messages that nodes exchange. A `Vec<u8>` is the
-- list of its bytes.
use raft_rupee.Base.{ℕ, List, Option, Bool}
use raft_rupee.Types.{Term, LogIndex, NodeId}

abbrev pub Bytes : Type 0
Bytes = List ℕ

pub record LogEntry : Type 0 where
  pub index : LogIndex
  pub term : Term
  pub command : Bytes

pub record SnapshotMeta : Type 0 where
  pub last_included_index : LogIndex
  pub last_included_term : Term

pub data MessageKind : Type 0 where
  request_vote : (last_log_index : LogIndex) (last_log_term : Term) → MessageKind
  request_vote_response : (vote_granted : Bool) → MessageKind
  pre_vote : (last_log_index : LogIndex) (last_log_term : Term) → MessageKind
  pre_vote_response : (vote_granted : Bool) → MessageKind
  append_entries :
      (prev_log_index : LogIndex) (prev_log_term : Term) (entries : List LogEntry)
      (leader_commit : LogIndex)
      → MessageKind
  append_entries_response :
      (success : Bool) (conflict_term : Option Term) (conflict_index : Option LogIndex)
      → MessageKind
  install_snapshot :
      (last_included_index : LogIndex) (last_included_term : Term) (offset : ℕ) (payload : Bytes)
      (done : Bool)
      → MessageKind
  install_snapshot_response : MessageKind
  client_request : (command : Bytes) → MessageKind
  client_response : (success : Bool) (leader_hint : Option NodeId) → MessageKind

pub record Message : Type 0 where
  pub from : NodeId
  pub to : NodeId
  pub term : Term
  pub kind : MessageKind
