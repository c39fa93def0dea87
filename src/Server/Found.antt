-- ===== src/Server/Found.antt =====
-- raft-server/src/storage.rs: what stands in a log file where `replay_wal` reads an entry.
use native.Mathlib.Nat.{zero-add}
use raft_rupee.Base.{
  ℕ, ◌+◌, ◌%◌, ◌^◌, ◌≤◌, ◌<◌, ◌≡◌, refl, sym, ap, ◌∙◌, ◌++◌, some, arith, length, drop, slice, All,
  slice_rest, length-slice, All-slice, append_assoc, subst,
}
use raft_rupee.Message.{Bytes, LogEntry}
use raft_rupee.Server.Bytes.{
  le_bytes, from_le_bytes, le_bytes-from_le_bytes, from_le_bytes-lt, room, IsByte,
}
use raft_rupee.Server.Os.{System}
use raft_rupee.Server.Storage.{encode_entry, read_entry}
use raft_rupee.Server.Entry.{IsEntry}

-- A file by the places of an entry's fields, for a command of `n` bytes.
cut_up :
    (file : Bytes) (n : ℕ)
    → slice file 0 8
        ++ (slice file 8 16
            ++ (slice file 16 20
                ++ (slice file 20 (20 + n)
                    ++ (slice file (20 + n) (24 + n) ++ drop (24 + n) file))))
      ≡ file
cut_up file n =
    rw
      (
        slice_rest file (20 + n) (24 + n) (omega arith),
        slice_rest file 20 (20 + n) (omega arith),
        slice_rest file 16 20 (omega arith),
        slice_rest file 8 16 (omega arith),
        slice_rest file 0 8 (omega arith),
      )
      refl

-- The guards that a successful read has passed, and its result.
record Reads (os : System) (file : Bytes) (e : LogEntry) (taken : ℕ) : Type 0 where
  all_there : 24 + from_le_bytes (slice file 16 20) ≤ length file
  taken_is : taken ≡ 24 + from_le_bytes (slice file 16 20)
  index_is : e.index ≡ from_le_bytes (slice file 0 8)
  term_is : e.term ≡ from_le_bytes (slice file 8 16)
  command_is : e.command ≡ slice file 20 (20 + from_le_bytes (slice file 16 20))
  crc_is :
      os.crc32 e.command
      ≡ from_le_bytes (
          slice file
            (20 + from_le_bytes (slice file 16 20))
            (24 + from_le_bytes (slice file 16 20)))

read_entry-Reads :
    (os : System) (file : Bytes) (e : LogEntry) (taken : ℕ)
    → read_entry os file 0 ≡ some (e, taken)
    → Reads os file e taken
unfolding read_entry
read_entry-Reads os file e taken h =
    let len = from_le_bytes (slice file 16 20) in
    let h' = rw (zero-add (20 + len), zero-add (24 + len)) at h in
    record {
      all_there = ground arith;
      taken_is = ground arith;
      index_is = ground arith;
      term_is = ground arith;
      command_is = ground arith;
      crc_is = ground arith;
    }

-- Bytes that are read as a number are the bytes of that number.
bytes_of :
    (file : Bytes) (i j w : ℕ)
    → All IsByte file
    → j ≤ length file
    → i + w ≡ j
    → le_bytes w (from_le_bytes (slice file i j)) ≡ slice file i j
bytes_of file i j w bytes h e =
    let len : w ≡ length (slice file i j) = omega (arith, length-slice {0} file i j h) in
    ap (λ k. le_bytes k (from_le_bytes (slice file i j))) len
    ∙ le_bytes-from_le_bytes (slice file i j) (All-slice IsByte file i j bytes)

number_lt :
    (file : Bytes) (i j w : ℕ)
    → All IsByte file
    → j ≤ length file
    → i + w ≡ j
    → from_le_bytes (slice file i j) < room w
number_lt file i j w bytes h e =
    let len : length (slice file i j) ≡ w = omega (arith, length-slice {0} file i j h) in
    subst (λ k. from_le_bytes (slice file i j) < room k) len
      (from_le_bytes-lt (slice file i j) (All-slice IsByte file i j bytes))

module _ (os : System) (file : Bytes) (e : LogEntry) (taken : ℕ) (bytes : All IsByte file)
    (r : Reads os file e taken) where
  abbrev len : ℕ
  len = from_le_bytes (slice file 16 20)

  len_lt : len < 2 ^ 32
  unfolding room
  len_lt = number_lt file 16 20 4 bytes (omega (arith, r.all_there)) (omega arith)

  length-command : length e.command ≡ len
  length-command =
      let n = length-slice file 20 (20 + len) (omega (arith, r.all_there)) in
      ap length r.command_is ∙ omega (arith, n)

  Reads-IsEntry : IsEntry e
  unfolding room
  Reads-IsEntry = record {
    index_bound =
        let h : 8 ≤ length file = omega (arith, r.all_there) in
        omega (arith, r.index_is, number_lt file 0 8 8 bytes h (omega arith));
    term_bound =
        let h : 16 ≤ length file = omega (arith, r.all_there) in
        omega (arith, r.term_is, number_lt file 8 16 8 bytes h (omega arith));
    command_bound = omega (arith, length-command, len_lt);
    command_bytes =
        subst (All IsByte) (sym r.command_is) (All-slice IsByte file 20 (20 + len) bytes);
  }

  Reads-encode_entry : encode_entry os e ++ drop taken file ≡ file
  unfolding encode_entry
  Reads-encode_entry =
      let there : 24 + len ≤ length file = r.all_there in
      let len_small : length e.command % 2 ^ 32 ≡ len = omega (arith, length-command, len_lt) in
      let index =
        ap (le_bytes 8) r.index_is
        ∙ bytes_of file 0 8 8 bytes (omega (arith, there)) (omega arith) in
      let term =
        ap (le_bytes 8) r.term_is
        ∙ bytes_of file 8 16 8 bytes (omega (arith, there)) (omega arith) in
      let width =
        ap (le_bytes 4) len_small
        ∙ bytes_of file 16 20 4 bytes (omega (arith, there)) (omega arith) in
      let crc =
        ap (le_bytes 4) r.crc_is
        ∙ bytes_of file (20 + len) (24 + len) 4 bytes there (omega arith) in
      let rest = ap (λ k. drop k file) r.taken_is in
      rw (index, term, width, crc, rest, r.command_is) (simp append_assoc (cut_up file len))

-- Where an entry is read, its bytes stand in the file, and it is within the bounds of its types.
pub read_entry-found :
    (os : System) (file : Bytes) (e : LogEntry) (taken : ℕ)
    → All IsByte file
    → read_entry os file 0 ≡ some (e, taken)
    → (encode_entry os e ++ drop taken file ≡ file)
      × IsEntry e
      × (taken ≡ 24 + length e.command)
      × (taken ≤ length file)
read_entry-found os file e taken bytes h =
    let r = read_entry-Reads os file e taken h in
    let size = length-command os file e taken bytes r in
    (
      Reads-encode_entry os file e taken bytes r,
      Reads-IsEntry os file e taken bytes r,
      omega (arith, r.taken_is, size),
      omega (arith, r.taken_is, r.all_there),
    )
