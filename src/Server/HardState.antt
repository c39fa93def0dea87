-- ===== src/Server/HardState.antt =====
-- raft-server/src/storage.rs: `write_hard_state` and the `read_hard_state` after it.
use raft_rupee.Base.{
  ◌+◌, ◌^◌, ◌<◌, ◌≡◌, ◌≢◌, refl, sym, ap, ◌∙◌, inl, inr, [], ◌∷◌, ◌++◌, Option, none, some, arith,
  length, take, drop, slice, overwrite, ◌==◌, ==_refl, if◌then◌else◌, unwrap_or, take-append,
  overwrite-append, slice-append, append_assoc, length-append, length-drop, Bool-cases,
}
use raft_rupee.Types.{Term, NodeId}
use raft_rupee.Message.{Bytes}
use raft_rupee.Server.Bytes.{le_bytes, length-le_bytes, read_u64, read_u32}
use raft_rupee.Server.Rounding.{sector_size, rounded_size, rounded_size_bounds}
use raft_rupee.Server.Os.{
  System, IsSystem, DurableDisk, Error, Result, ok, err, last_os_error, call, cells, length-cells,
  get_hs, set_hs,
}
use raft_rupee.Server.Storage.{
  new_buffer, hard_state_sector, write_hard_state, decode_hard_state, read_sector, read_hard_state,
}

-- What comes back of a vote: node id 0 stands for no vote.
abbrev pub stored_vote : Option NodeId → Option NodeId
stored_vote voted_for = let v = unwrap_or voted_for 0 in if v == 0 then none else some v

module _ (os : System) (term : Term) (voted_for : Option NodeId) where
  abbrev term_bytes : Bytes
  term_bytes = le_bytes 8 term

  abbrev voted_bytes : Bytes
  voted_bytes = le_bytes 8 (unwrap_or voted_for 0)

  abbrev crc_bytes : Bytes
  crc_bytes = le_bytes 4 (os.crc32 (term_bytes ++ voted_bytes))

  -- The twenty bytes of the hard state.
  abbrev front : Bytes
  front = (term_bytes ++ voted_bytes) ++ crc_bytes

  sixteen : length (term_bytes ++ voted_bytes) ≡ 16
  sixteen = omega (
    arith,
    length-append {0} term_bytes voted_bytes,
    length-le_bytes 8 term,
    length-le_bytes 8 (unwrap_or voted_for 0),
  )

  -- The first twenty bytes of the sector, and old memory behind them.
  hard_state_sector_lem :
      (buffer : Bytes)
      → hard_state_sector os term voted_for buffer
        ≡ ((term_bytes ++ voted_bytes) ++ crc_bytes) ++ drop 20 buffer
  unfolding hard_state_sector
  hard_state_sector_lem buffer =
      let t8 = length-le_bytes 8 term in
      let v8 = length-le_bytes 8 (unwrap_or voted_for 0) in
      let c4 = length-le_bytes 4 (os.crc32 (term_bytes ++ voted_bytes)) in
      let with_term : overwrite 0 term_bytes buffer ≡ term_bytes ++ drop 8 buffer =
        overwrite-append [] term_bytes buffer 0 8 refl (omega (arith, t8)) in
      let with_vote : overwrite 8 voted_bytes (term_bytes ++ drop 8 buffer)
          ≡ (term_bytes ++ voted_bytes) ++ drop 16 buffer =
        overwrite-append term_bytes voted_bytes buffer 8 16 t8 (omega (arith, v8)) in
      let front : slice ((term_bytes ++ voted_bytes) ++ drop 16 buffer) 0 16
          ≡ term_bytes ++ voted_bytes =
        slice-append [] (term_bytes ++ voted_bytes) (drop 16 buffer) 0 16 refl
          (omega (arith, sixteen)) in
      rw (with_term, with_vote, front)
        (overwrite-append (term_bytes ++ voted_bytes) crc_bytes buffer 16 20 sixteen
          (omega (arith, c4)))

  -- What is read of such a sector.
  decode_hard_state_lem :
      (rest : Bytes)
      → IsSystem os
      → term < 2 ^ 64
      → unwrap_or voted_for 0 < 2 ^ 64
      → decode_hard_state os (((term_bytes ++ voted_bytes) ++ crc_bytes) ++ rest)
        ≡ ok (some (term, stored_vote voted_for))
  unfolding decode_hard_state
  decode_hard_state_lem rest is_os ht hv =
      let file = ((term_bytes ++ voted_bytes) ++ crc_bytes) ++ rest in
      let t8 = length-le_bytes 8 term in
      let v8 = length-le_bytes 8 (unwrap_or voted_for 0) in
      let c4 = length-le_bytes 4 (os.crc32 (term_bytes ++ voted_bytes)) in
      let as_fields : file ≡ term_bytes ++ (voted_bytes ++ (crc_bytes ++ rest)) =
        simp append_assoc in
      let as_front : file ≡ (term_bytes ++ voted_bytes) ++ (crc_bytes ++ rest) =
        simp append_assoc in
      let term_at : slice file 0 8 ≡ term_bytes = rw as_fields (
        slice-append [] term_bytes (voted_bytes ++ (crc_bytes ++ rest)) 0 8 refl
          (omega (arith, t8))) in
      let voted_at : slice file 8 16 ≡ voted_bytes =
        rw as_fields
          (slice-append term_bytes voted_bytes (crc_bytes ++ rest) 8 16 t8 (omega (arith, v8))) in
      let crc_at : slice file 16 20 ≡ crc_bytes = rw as_front (
        slice-append (term_bytes ++ voted_bytes) crc_bytes rest 16 20 sixteen
          (omega (arith, c4))) in
      let front_at : slice file 0 16 ≡ term_bytes ++ voted_bytes = rw as_front (
        slice-append [] (term_bytes ++ voted_bytes) (crc_bytes ++ rest) 0 16 refl
          (omega (arith, sixteen))) in
      let crc = os.crc32 (term_bytes ++ voted_bytes) in
      rw
        (
          term_at,
          voted_at,
          crc_at,
          front_at,
          read_u64 term ht,
          read_u64 (unwrap_or voted_for 0) hv,
          read_u32 crc (is_os.crc32_bound (term_bytes ++ voted_bytes)),
          ==_refl crc,
        )
        refl

read_sector_nonempty :
    (os : System) (file buffer : Bytes)
    → 0 < length file
    → read_sector os file buffer ≡ decode_hard_state os (overwrite 0 (take sector_size file) buffer)
unfolding read_sector
read_sector_nonempty os [] buffer h = absurd (omega arith)
read_sector_nonempty os (b ∷ file) buffer h = refl

pub ok-ne-err : (e : Error) → ◌≢◌ {A = Result (Unit {0})} (err e) (ok tt)
ok-ne-err e h = cc

-- Such a sector is read whole, whatever the buffer holds.
reads_sector :
    (os : System) (term : Term) (voted_for : Option NodeId) (file memory after buffer : Bytes)
    → IsSystem os
    → term < 2 ^ 64
    → unwrap_or voted_for 0 < 2 ^ 64
    → length (front os term voted_for ++ memory) ≡ sector_size
    → file ≡ (front os term voted_for ++ memory) ++ after
    → read_sector os file buffer ≡ ok (some (term, stored_vote voted_for))
unfolding overwrite
reads_sector os term voted_for file memory after buffer is_os ht hv size is_file =
    let sector = front os term voted_for ++ memory in
    let at_size : sector_size ≡ length sector = sym size in
    let first : take sector_size file ≡ sector =
      ap (take sector_size) is_file
      ∙ ap (λ n. take n (sector ++ after)) at_size
      ∙ take-append sector after in
    let nonempty : 0 < length file =
      omega (arith, ap length is_file, length-append {0} sector after, size) in
    let behind = drop (0 + length sector) buffer in
    read_sector_nonempty os file buffer nonempty
    ∙ ap (λ bs. decode_hard_state os (overwrite 0 bs buffer)) first
    ∙ ap (decode_hard_state os) (append_assoc (front os term voted_for) memory behind)
    ∙ decode_hard_state_lem os term voted_for (memory ++ behind) is_os ht hv

sector_whole : rounded_size sector_size ≡ 4096
sector_whole = omega (arith, rounded_size_bounds sector_size (omega arith))

-- The sector that a successful write leaves at the start of the file.
written_sector :
    (os : System) (term : Term) (voted_for : Option NodeId) (d : DurableDisk)
    → (write_hard_state os term voted_for d).0 ≡ ok tt
    → (memory after : Bytes) × (length (front os term voted_for ++ memory) ≡ sector_size)
      × ((write_hard_state os term voted_for d).1.hs_file
          ≡ (front os term voted_for ++ memory) ++ after)
unfolding write_hard_state new_buffer call get_hs set_hs overwrite
written_sector os term voted_for d h = elim (Bool-cases (os.fails (d.time + 1))) [
  | inl f ↦ absurd (ok-ne-err last_os_error (rw f at h))
  | inr f ↦
      let buffer = cells (os.memory d.time) 0 (rounded_size sector_size) in
      let sector = hard_state_sector os term voted_for buffer in
      let is_sector = hard_state_sector_lem os term voted_for buffer in
      let crc = os.crc32 (term_bytes os term voted_for ++ voted_bytes os term voted_for) in
      let size : length (front os term voted_for ++ drop 20 buffer) ≡ sector_size = omega (
        arith,
        length-append {0} (front os term voted_for) (drop 20 buffer),
        length-append {0} (term_bytes os term voted_for ++ voted_bytes os term voted_for)
            (crc_bytes os term voted_for),
        sixteen os term voted_for,
        length-le_bytes 4 crc,
        length-drop {0} 20 buffer,
        length-cells (os.memory d.time) 0 (rounded_size sector_size),
        sector_whole,
      ) in
      rw f (
        drop 20 buffer,
        drop (0 + length sector) d.hs_file,
        size,
        ap (λ bs. bs ++ drop (0 + length sector) d.hs_file) is_sector,
      )
]

-- The hard state that a successful `write_hard_state` has written is what a later `read_hard_state`
-- returns, whatever the file and the memory held before, unless its system call fails. A vote for
-- node 0 is read as no vote.
pub read-write_hard_state :
    (os : System) (term : Term) (voted_for : Option NodeId) (d d' : DurableDisk)
    → IsSystem os
    → term < 2 ^ 64
    → unwrap_or voted_for 0 < 2 ^ 64
    → (write_hard_state os term voted_for d).0 ≡ ok tt
    → d'.hs_file ≡ (write_hard_state os term voted_for d).1.hs_file
    → (read_hard_state os d').0 ≡ (
        if os.fails (d'.time + 1)
        then err last_os_error
        else ok (some (term, stored_vote voted_for)))
unfolding read_hard_state new_buffer call get_hs
read-write_hard_state os term voted_for d d' is_os ht hv wrote same =
    elim (Bool-cases (os.fails (d'.time + 1))) [
      | inl f ↦ rw f refl
      | inr f ↦
          let (memory, after, size, is_file) = written_sector os term voted_for d wrote in
          let buffer = cells (os.memory d'.time) 0 (rounded_size sector_size) in
          rw f (
            reads_sector os term voted_for d'.hs_file memory after buffer is_os ht hv size
              (same ∙ is_file))
    ]
