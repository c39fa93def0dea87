-- ===== src/Examples/Files.antt =====
-- The theorems on the files of raft-server/src/storage.rs at concrete files. The checksum of the
-- examples is the sum of the bytes, which is 0 on no bytes as CRC-32 is.
use raft_rupee.Base.{
  ℕ, ◌+◌, ◌%◌, ◌^◌, ◌≤◌, ◌<◌, ◌≡◌, refl, false, List, [], ◌∷◌, ◌++◌, some, none, arith, All,
  if◌then◌else◌, slice,
}
use mathlib.Core.List.{foldr}
use raft_rupee.Message.{Bytes, LogEntry}
use raft_rupee.Server.Bytes.{le_bytes, from_le_bytes}
use raft_rupee.Server.Rounding.{rounded_size, rounded_size_bounds}
use raft_rupee.Server.Os.{
  System, IsSystem, DurableDisk, ok, err, last_os_error, call, get_hs, set_hs,
}
use raft_rupee.Server.Storage.{
  encode_entry, encode, new_buffer, write_hard_state, read_hard_state, read_entry, replay_loop,
  replay, truncate_and_append,
}
use raft_rupee.Server.Entry.{IsEntry}
use raft_rupee.Server.Replay.{Holds, replay_ends}
use raft_rupee.Server.Contents.{replay-encode}
use raft_rupee.Server.Truncation.{IsKept, Truncated, truncate_and_append-Truncated}
use raft_rupee.Server.HardState.{stored_vote, read-write_hard_state}
use raft_rupee.Server.Main.{Setting}
use raft_rupee.Examples.Setup.{low_rng}

-- A system whose memory is zero and whose calls succeed.
abbrev pub sums : System
sums = record {
  crc32 = λ bs. foldr (λ b n. b + n) 0 bs % 2 ^ 32;
  memory = λ time i. 0;
  fails = λ time. false;
}

sums-IsSystem : IsSystem sums
sums-IsSystem = record { crc32_bound = λ bs. omega arith; memory_bytes = λ time i. omega arith }

abbrev pub no_files : DurableDisk
no_files = record { hs_file = []; wal_file = []; time = 0 }

abbrev entry : ℕ → LogEntry
entry i = record { index = i; term = 2; command = 7 ∷ [] }

abbrev two : List LogEntry
two = entry 1 ∷ entry 2 ∷ []

entry-IsEntry : (i : ℕ) → i < 2 ^ 64 → IsEntry (entry i)
entry-IsEntry i h = record {
  index_bound = h;
  term_bound = omega arith;
  command_bound = omega arith;
  command_bytes = (omega arith, tt);
}

two-IsEntry : All IsEntry two
two-IsEntry = (entry-IsEntry 1 (omega arith), (entry-IsEntry 2 (omega arith), tt))

rounded_size_bounds_example :
    (5000 ≤ rounded_size 5000) × (rounded_size 5000 < 5000 + 4096) × (rounded_size 5000 % 4096 ≡ 0)
rounded_size_bounds_example = rounded_size_bounds 5000 (omega arith)

rounds_up : rounded_size 5000 ≡ 8192
unfolding rounded_size
rounds_up = refl

-- An entry of index 1 and term 2 with the command 7, and five more bytes.
abbrev file : Bytes
file =
    1 ∷ 0 ∷ 0 ∷ 0 ∷ 0 ∷ 0 ∷ 0 ∷ 0 ∷ 2 ∷ 0 ∷ 0 ∷ 0 ∷ 0 ∷ 0 ∷ 0 ∷ 0 ∷ 1 ∷ 0 ∷ 0 ∷ 0 ∷ 7 ∷ 7 ∷ 0 ∷ 0
    ∷ 0 ∷ 9 ∷ 9 ∷ 9 ∷ 9 ∷ 9 ∷ []

replay_ends_example :
    (es : List LogEntry) × (rest : Bytes) × Holds sums file es rest × (replay sums file ≡ some es)
replay_ends_example = replay_ends sums file sums-IsSystem (omega arith)

reads_one : replay sums file ≡ some (entry 1 ∷ [])
unfolding replay replay_loop read_entry slice from_le_bytes
reads_one = refl

replay-encode_example : replay sums (encode sums two ++ 9 ∷ []) ≡ some (two ++ [])
unfolding replay replay_loop read_entry slice from_le_bytes
replay-encode_example =
    replay-encode sums two [] (9 ∷ []) sums-IsSystem two-IsEntry (omega arith) refl

read-write_hard_state_example :
    (read_hard_state sums (write_hard_state sums 5 (some 2) no_files).1).0
    ≡ (if false then err last_os_error else ok (some (5, stored_vote (some 2))))
unfolding write_hard_state new_buffer call get_hs set_hs
read-write_hard_state_example =
    read-write_hard_state sums 5 (some 2) no_files (write_hard_state sums 5 (some 2) no_files).1
      sums-IsSystem (omega arith) (omega arith) refl refl

-- A log file with the two entries, and a truncation from index 2 on.
abbrev logged : DurableDisk
logged = record { hs_file = []; wal_file = encode sums two; time = 0 }

two-IsKept : IsKept 2 two (entry 1 ∷ [])
two-IsKept = record {
  dropped = entry 2 ∷ [];
  whole = refl;
  below = (omega arith, tt);
  stops = λ e rest h. ground arith;
}

truncate_and_append-Truncated_example :
    Truncated sums logged
      (entry 1 ∷ [])
      (entry 2 ∷ [])
      (truncate_and_append sums 2 (entry 2 ∷ []) logged)
unfolding encode encode_entry le_bytes replay replay_loop read_entry slice from_le_bytes
truncate_and_append-Truncated_example =
    truncate_and_append-Truncated sums sums-IsSystem 2 (entry 2 ∷ []) (omega arith) logged two
      (entry 1 ∷ []) refl two-IsKept (omega arith)

abbrev setting : Setting
setting = record {
  os = sums;
  wire = record { serialize = λ m. none; deserialize = λ bs. none };
  rng = low_rng;
  connect = λ addr time. none;
}
