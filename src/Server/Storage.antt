-- ===== src/Server/Storage.antt =====
-- raft-server/src/storage.rs: `DurableDisk`, the hard state in one sector and the write-ahead log.
-- The files are byte lists (Server/Os.antt), and `base_dir` has no counterpart.
use raft_rupee.Base.{
  ℕ, zero, suc, ◌+◌, ◌%◌, ◌^◌, true, false, not, ◌&&◌, List, [], ◌∷◌, ◌++◌, Option, none, some,
  length, take, slice, overwrite, ltb, leb, ◌==◌, if◌then◌else◌, unwrap_or,
}
use raft_rupee.Types.{Term, LogIndex, NodeId}
use raft_rupee.Message.{Bytes, LogEntry}
use raft_rupee.Server.Bytes.{le_bytes, from_le_bytes}
use raft_rupee.Server.Rounding.{sector_size, rounded_size}
use raft_rupee.Server.Os.{
  System, invalid_data, Result, ok, err, stuck, M, pure, ◌>>=◌, ◌>>◌, later, call, cells, get_hs,
  set_hs, get_wal, set_wal,
}

-- `AlignedBuffer::new`: the memory is not cleared.
unfoldable pub new_buffer : System → ℕ → M Bytes
new_buffer os size d = (ok (cells (os.memory d.time) 0 (rounded_size size)), later d)

-- What `write_hard_state` fills into its buffer.
unfoldable pub hard_state_sector : System → Term → Option NodeId → Bytes → Bytes
hard_state_sector os term voted_for buffer =
    let with_term = overwrite 0 (le_bytes 8 term) buffer in
    let with_vote = overwrite 8 (le_bytes 8 (unwrap_or voted_for 0)) with_term in
    overwrite 16 (le_bytes 4 (os.crc32 (slice with_vote 0 16))) with_vote

unfoldable pub write_hard_state : System → Term → Option NodeId → M (Unit {0})
write_hard_state os term voted_for = do
  buffer ← new_buffer os sector_size
  call os
  file ← get_hs
  set_hs (overwrite 0 (hard_state_sector os term voted_for buffer) file)

-- What `read_hard_state` makes of a buffer.
unfoldable pub decode_hard_state : System → Bytes → Result (Option (Term × Option NodeId))
decode_hard_state os buffer =
    let term = from_le_bytes (slice buffer 0 8) in
    let voted_val = from_le_bytes (slice buffer 8 16) in
    let expected_crc = from_le_bytes (slice buffer 16 20) in
    let actual_crc = os.crc32 (slice buffer 0 16) in
    if not (actual_crc == expected_crc) && not (expected_crc == 0)
    then err invalid_data
    else ok (some (term, if voted_val == 0 then none else some voted_val))

-- `pread` of one sector into a buffer; nothing is read of an empty file.
unfoldable pub read_sector : System → Bytes → Bytes → Result (Option (Term × Option NodeId))
read_sector os [] buffer = ok none
read_sector os (b ∷ file) buffer =
    decode_hard_state os (overwrite 0 (take sector_size (b ∷ file)) buffer)

unfoldable pub read_hard_state : System → M (Option (Term × Option NodeId))
read_hard_state os = do
  buffer ← new_buffer os sector_size
  call os
  file ← get_hs
  λ d. (read_sector os file buffer, d)

-- One entry of the log file.
unfoldable pub encode_entry : System → LogEntry → Bytes
encode_entry os e =
    le_bytes 8 e.index
    ++ (le_bytes 8 e.term
        ++ (le_bytes 4 (length e.command % 2 ^ 32)
            ++ (e.command ++ le_bytes 4 (os.crc32 e.command))))

-- The payload of `append_log_entries`.
unfoldable pub encode : System → List LogEntry → Bytes
encode os [] = []
encode os (e ∷ es) = encode_entry os e ++ encode os es

-- The write at the end of the file.
unfoldable pub append_log_entries : System → List LogEntry → M (Unit {0})
append_log_entries os [] = pure tt
append_log_entries os (e ∷ es) = do
  let payload = encode os (e ∷ es)
  buffer ← new_buffer os (length payload)
  call os
  call os
  file ← get_wal
  set_wal (overwrite (length file) (overwrite 0 payload buffer) file)

-- The body of the loop of `replay_wal`: the entry at an offset and the bytes that it takes; `none`
-- is the `break`.
unfoldable pub read_entry : System → Bytes → ℕ → Option (LogEntry × ℕ)
read_entry os file offset =
    let len = from_le_bytes (slice file (offset + 16) (offset + 20)) in
    let command = slice file (offset + 20) (offset + (20 + len)) in
    let expected_crc = from_le_bytes (slice file (offset + (20 + len)) (offset + (24 + len))) in
    if ltb (length file) (offset + 24)
    then none
    else if ltb (length file) (offset + (24 + len))
    then none
    else if not (os.crc32 command == expected_crc)
    then none
    else some (
      record {
        index = from_le_bytes (slice file offset (offset + 8));
        term = from_le_bytes (slice file (offset + 8) (offset + 16));
        command = command;
      },
      24 + len,
    )

-- The loop, with fuel for its rounds; `none` is that they do not suffice.
unfoldable pub replay_loop : System → ℕ → Bytes → ℕ → List LogEntry → Option (List LogEntry)
replay_loop os zero file offset entries = none
replay_loop os (suc fuel) file offset entries = elim (ltb offset (length file)) [
  | false ↦ some entries
  | true ↦ elim (read_entry os file offset) [
    | none ↦ some entries
    | some (e, taken) ↦ replay_loop os fuel file (offset + taken) (entries ++ (e ∷ []))
  ]
]

-- The entries that a replay of a log file with these contents yields. A round takes 24 bytes or more.
unfoldable pub replay : System → Bytes → Option (List LogEntry)
replay os file = replay_loop os (suc (length file)) file 0 []

unfoldable pub replayed : Option (List LogEntry) → Result (List LogEntry)
replayed none = stuck
replayed (some entries) = ok entries

unfoldable pub replay_wal : System → M (List LogEntry)
replay_wal os = do call os; call os; file ← get_wal; λ d. (replayed (replay os file), d)

-- `position(|e| e.index >= from_index)` and the truncation at it.
unfoldable pub entries_before : LogIndex → List LogEntry → List LogEntry
entries_before from_index [] = []
entries_before from_index (e ∷ es) =
    if leb from_index e.index then [] else e ∷ entries_before from_index es

unfoldable pub truncate_and_append : System → LogIndex → List LogEntry → M (Unit {0})
truncate_and_append os from_index entries = do
  preserved ← replay_wal os
  call os
  set_wal []
  call os
  append_log_entries os (entries_before from_index preserved)
  append_log_entries os entries
