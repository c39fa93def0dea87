-- ===== src/Server/Entry.antt =====
-- raft-server/src/storage.rs: one entry of the log file, written by `append_log_entries` and read by
-- `replay_wal`.
use native.Mathlib.Nat.{zero-add}
use raft_rupee.Base.{
  ℕ, ◌+◌, ◌%◌, ◌^◌, ◌<◌, ◌≡◌, refl, sym, ap, ◌∙◌, false, [], ◌++◌, some, arith, length, drop, slice,
  ltb, ==_refl, All, slice-append, slice-drop, length-append, length-drop, append_assoc,
}
use raft_rupee.Message.{Bytes, LogEntry}
use raft_rupee.Server.Bytes.{le_bytes, from_le_bytes, length-le_bytes, read_u64, read_u32, IsByte}
use raft_rupee.Server.Os.{System, IsSystem}
use raft_rupee.Server.Storage.{encode_entry, read_entry}

-- An entry of Rust's types, whose command is shorter than 4 GiB.
pub record IsEntry (e : LogEntry) : Type 0 where
  pub index_bound : e.index < 2 ^ 64
  pub term_bound : e.term < 2 ^ 64
  pub command_bound : length e.command < 2 ^ 32
  pub command_bytes : All IsByte e.command

pub length-encode_entry :
    (os : System) (e : LogEntry) → length (encode_entry os e) ≡ 24 + length e.command
unfolding encode_entry
length-encode_entry os e =
    let len = length e.command % 2 ^ 32 in
    let crc = os.crc32 e.command in
    omega (
      arith,
      length-append {0} (le_bytes 8 e.index)
          (le_bytes 8 e.term ++ (le_bytes 4 len ++ (e.command ++ le_bytes 4 crc))),
      length-append {0} (le_bytes 8 e.term) (le_bytes 4 len ++ (e.command ++ le_bytes 4 crc)),
      length-append {0} (le_bytes 4 len) (e.command ++ le_bytes 4 crc),
      length-append {0} e.command (le_bytes 4 crc),
      length-le_bytes 8 e.index,
      length-le_bytes 8 e.term,
      length-le_bytes 4 len,
      length-le_bytes 4 crc,
    )

-- Of the bytes behind an offset, a positive number is missing in the file when it is missing there.
ltb_offset :
    (file : Bytes) (offset k : ℕ)
    → 0 < k
    → ltb (length file) (offset + k) ≡ ltb (length (drop offset file)) k
ltb_offset file offset k h = ground (arith, length-drop {0} offset file)

slice_first :
    (file : Bytes) (offset j : ℕ) → slice file offset (offset + j) ≡ slice (drop offset file) 0 j
slice_first file offset j =
    let e : offset ≡ offset + 0 = omega arith in
    ap (λ i. slice file i (offset + j)) e ∙ slice-drop file offset 0 j

-- What is read at an offset depends on the bytes from there on only.
pub read_entry-drop :
    (os : System) (file : Bytes) (offset : ℕ)
    → read_entry os file offset ≡ read_entry os (drop offset file) 0
unfolding read_entry
read_entry-drop os file offset =
    let len = from_le_bytes (slice (drop offset file) 16 20) in
    rw
      (
        slice-drop file offset 16 20,
        slice-drop file offset 8 16,
        slice_first file offset 8,
        zero-add (20 + len),
        zero-add (24 + len),
        slice-drop file offset 20 (20 + len),
        slice-drop file offset (20 + len) (24 + len),
        ltb_offset file offset 24 (omega arith),
        ltb_offset file offset (24 + len) (omega arith),
      )
      refl

-- The fields of an entry at the start of a file, by their places.
module _ (index term len command crc rest : Bytes) where
  abbrev laid_out : Bytes
  laid_out = index ++ (term ++ (len ++ (command ++ (crc ++ rest))))

  module _ (index_8 : length index ≡ 8) (term_8 : length term ≡ 8) (len_4 : length len ≡ 4)
      (crc_4 : length crc ≡ 4) where
    slice-index : slice laid_out 0 8 ≡ index
    slice-index = slice-append [] index _ 0 8 refl (omega arith)

    slice-term : slice laid_out 8 16 ≡ term
    slice-term = slice-append index term _ 8 16 index_8 (omega arith)

    slice-len : slice laid_out 16 20 ≡ len
    slice-len =
        let e : laid_out ≡ (index ++ term) ++ (len ++ (command ++ (crc ++ rest))) =
          sym (append_assoc index term _) in
        rw e (
          slice-append (index ++ term) len _ 16 20 (omega (arith, length-append {0} index term))
            (omega arith))

    front_20 : length (index ++ (term ++ len)) ≡ 20
    front_20 = omega (arith, length-append {0} index (term ++ len), length-append {0} term len)

    slice-command : (n : ℕ) → n ≡ 20 + length command → slice laid_out 20 n ≡ command
    slice-command n h =
        let e : laid_out ≡ (index ++ (term ++ len)) ++ (command ++ (crc ++ rest)) =
          simp append_assoc in
        rw e (slice-append (index ++ (term ++ len)) command _ 20 n front_20 (omega arith))

    slice-crc :
        (n k : ℕ) → n ≡ 20 + length command → k ≡ 24 + length command → slice laid_out n k ≡ crc
    slice-crc n k hn hk =
        let e : laid_out ≡ ((index ++ (term ++ len)) ++ command) ++ (crc ++ rest) =
          simp append_assoc in
        rw e (
          slice-append ((index ++ (term ++ len)) ++ command) crc rest n k
            (omega (arith, front_20, length-append {0} (index ++ (term ++ len)) command))
            (omega arith))

  length-laid_out :
      length laid_out
      ≡ length index + length term + length len + length command + length crc + length rest
  length-laid_out = omega (
    arith,
    length-append {0} index (term ++ (len ++ (command ++ (crc ++ rest)))),
    length-append {0} term (len ++ (command ++ (crc ++ rest))),
    length-append {0} len (command ++ (crc ++ rest)),
    length-append {0} command (crc ++ rest),
    length-append {0} crc rest,
  )

  -- What is read of an entry with a matching length and checksum.
  read_entry-laid_out :
      (os : System)
      → length index ≡ 8
      → length term ≡ 8
      → length len ≡ 4
      → length crc ≡ 4
      → from_le_bytes len ≡ length command
      → from_le_bytes crc ≡ os.crc32 command
      → read_entry os laid_out 0
        ≡ some (
          record { index = from_le_bytes index; term = from_le_bytes term; command = command },
          24 + length command,
        )
  unfolding read_entry
  read_entry-laid_out os index_8 term_8 len_4 crc_4 len_is crc_is =
      let n = 20 + length command in
      let k = 24 + length command in
      let enough : ltb (length laid_out) 24 ≡ false = ground (arith, length-laid_out) in
      let all_there : ltb (length laid_out) k ≡ false = ground (arith, length-laid_out) in
      rw
        (
          slice-len index_8 term_8 len_4 crc_4,
          len_is,
          zero-add n,
          zero-add k,
          slice-command index_8 term_8 len_4 crc_4 n refl,
          slice-crc index_8 term_8 len_4 crc_4 n k refl refl,
          crc_is,
          enough,
          all_there,
          ==_refl (os.crc32 command),
          slice-index index_8 term_8 len_4 crc_4,
          slice-term index_8 term_8 len_4 crc_4,
        )
        refl

-- An entry that has been written is read back, whatever follows it.
pub read_entry-encode_entry :
    (os : System) (e : LogEntry) (rest : Bytes)
    → IsSystem os
    → IsEntry e
    → read_entry os (encode_entry os e ++ rest) 0 ≡ some (e, 24 + length e.command)
unfolding encode_entry
read_entry-encode_entry os e rest is_os is_e =
    let index = le_bytes 8 e.index in
    let term = le_bytes 8 e.term in
    let len = le_bytes 4 (length e.command % 2 ^ 32) in
    let crc = le_bytes 4 (os.crc32 e.command) in
    let whole : encode_entry os e ++ rest ≡ laid_out index term len e.command crc rest =
      simp append_assoc in
    let small : length e.command % 2 ^ 32 ≡ length e.command = omega arith in
    let read =
      read_entry-laid_out index term len e.command crc rest os (length-le_bytes 8 e.index)
        (length-le_bytes 8 e.term) (length-le_bytes 4 (length e.command % 2 ^ 32))
        (length-le_bytes 4 (os.crc32 e.command))
        (read_u32 (length e.command % 2 ^ 32) (omega arith) ∙ small)
        (read_u32 (os.crc32 e.command) (is_os.crc32_bound e.command)) in
    let index_is = read_u64 e.index is_e.index_bound in
    let term_is = read_u64 e.term is_e.term_bound in
    ap (λ file. read_entry os file 0) whole ∙ rw (index_is, term_is) at read
