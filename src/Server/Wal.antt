-- ===== src/Server/Wal.antt =====
-- raft-server/src/storage.rs: what `append_log_entries` and `truncate_and_append` leave in the files,
-- with failing system calls.
use raft_rupee.Base.{
  ℕ, ◌+◌, ◌%◌, ◌^◌, ◌<◌, ◌≡◌, ◌⊎◌, refl, sym, ap, ◌∙◌, inl, inr, List, [], ◌∷◌, ◌++◌, arith, length,
  true, drop, overwrite, All, All-drop, length-drop, append-nil, drop_all, take_of_le, Bool-cases,
}
use raft_rupee.Message.{Bytes, LogEntry}
use raft_rupee.Server.Bytes.{IsByte}
use raft_rupee.Server.Rounding.{rounded_size, rounded_size_bounds}
use raft_rupee.Server.Os.{
  System, IsSystem, DurableDisk, ok, err, last_os_error, call, cells, length-cells, cells-IsByte,
  get_wal, set_wal,
}
use raft_rupee.Server.Storage.{encode, new_buffer, append_log_entries}

-- The old memory that is written behind a payload of a size.
abbrev pub left_over : System → DurableDisk → ℕ → Bytes
left_over os d size = drop size (cells (os.memory d.time) 0 (rounded_size size))

-- Some system call fails.
abbrev pub HasFault : System → Type 0
HasFault os = (t : ℕ) × (os.fails t ≡ true)

-- A batch of entries stands at the end of the log file, with old memory up to the next sector.
pub record Appended (os : System) (d d' : DurableDisk) (es : List LogEntry) (padding : Bytes)
    : Type 0 where
  pub wal : d'.wal_file ≡ d.wal_file ++ (encode os es ++ padding)
  pub hs : d'.hs_file ≡ d.hs_file
  pub short : length padding < 4096
  pub whole : (length (encode os es) + length padding) % 4096 ≡ 0
  pub are_bytes : All IsByte padding
  pub old_memory : padding ≡ left_over os d (length (encode os es))

pub record Unchanged (d d' : DurableDisk) : Type 0 where
  pub wal : d'.wal_file ≡ d.wal_file
  pub hs : d'.hs_file ≡ d.hs_file

-- A payload in a buffer that is as long or longer, written at the end of a file.
written :
    (payload memory file : Bytes)
    → overwrite (length file) (overwrite 0 payload memory) file
      ≡ file ++ (payload ++ drop (length payload) memory)
unfolding overwrite
written payload memory file =
    let buffer = [] ++ (payload ++ drop (0 + length payload) memory) in
    let past = length file + length buffer in
    let z : 0 + length payload ≡ length payload = omega arith in
    rw
      (
        take_of_le (length file) file (omega arith),
        drop_all past file (omega arith),
        append-nil (payload ++ drop (0 + length payload) memory),
        z,
      )
      refl

module _ (os : System) (is_os : IsSystem os) where
  left_over-size :
      (d : DurableDisk) (size : ℕ)
      → size + 4095 < 2 ^ 64
      → (length (left_over os d size) < 4096) × ((size + length (left_over os d size)) % 4096 ≡ 0)
  left_over-size d size h =
      let (holds, tight, whole) = rounded_size_bounds size h in
      let len = length-drop {0} size (cells (os.memory d.time) 0 (rounded_size size)) in
      let all = length-cells (os.memory d.time) 0 (rounded_size size) in
      let sum : size + length (left_over os d size) ≡ rounded_size size = omega (arith, len, all) in
      (omega (arith, len, all), ap (λ n. n % 4096) sum ∙ whole)

  -- `append_log_entries` succeeds, and the batch and less than a sector of old memory stand at the
  -- end of the log file; or a system call fails, and it changes
  -- no file.
  pub append_log_entries_lem :
      (d : DurableDisk) (es : List LogEntry)
      → length (encode os es) + 4095 < 2 ^ 64
      → ((padding : Bytes) × ((append_log_entries os es d).0 ≡ ok tt)
          × Appended os d (append_log_entries os es d).1 es padding)
        ⊎ (HasFault os
            × ((append_log_entries os es d).0 ≡ err last_os_error)
            × Unchanged d (append_log_entries os es d).1)
  unfolding append_log_entries encode cells new_buffer call get_wal set_wal
  append_log_entries_lem d [] h =
      let nothing : rounded_size 0 ≡ 0 = omega (arith, rounded_size_bounds 0 (omega arith)) in
      let none_left : ◌≡◌ {A = Bytes} [] (left_over os d 0) = rw nothing refl in
      inl (
        [],
        refl,
        record {
          wal = sym (append-nil d.wal_file);
          hs = refl;
          short = omega arith;
          whole = omega arith;
          are_bytes = tt;
          old_memory = none_left;
        },
      )
  append_log_entries_lem d (e ∷ es) h = elim (Bool-cases (os.fails (d.time + 1))) [
    | inl f ↦ inr (rw f ((_, f), refl, record { wal = refl; hs = refl }))
    | inr g ↦ elim (Bool-cases (os.fails (d.time + 1 + 1))) [
      | inl f ↦ inr (rw (g, f) ((_, f), refl, record { wal = refl; hs = refl }))
      | inr f ↦
          let payload = encode os (e ∷ es) in
          let memory = cells (os.memory d.time) 0 (rounded_size (length payload)) in
          let (short, whole) = left_over-size d (length payload) h in
          inl (
            rw (g, f)
              (
                left_over os d (length payload),
                refl,
                record {
                  wal = written payload memory d.wal_file;
                  hs = refl;
                  short = short;
                  whole = whole;
                  are_bytes = All-drop IsByte (length payload) memory (
                      cells-IsByte (os.memory d.time) (is_os.memory_bytes d.time) 0
                        (rounded_size (length payload)));
                  old_memory = refl;
                },
              ))
    ]
  ]
