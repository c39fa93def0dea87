-- ===== src/Server/Truncation.antt =====
-- raft-server/src/storage.rs: `truncate_and_append`, which empties the log file and writes it again.
use raft_rupee.Base.{
  All, le→leb, true, false, ◌+◌, ◌^◌, ◌≤◌, ◌<◌, ◌≡◌, refl, ap, ◌∙◌, inl, inr, List, [], ◌∷◌, ◌++◌,
  some, arith, length, Bool-cases, leb,
}
use raft_rupee.Types.{LogIndex}
use raft_rupee.Message.{Bytes, LogEntry}
use raft_rupee.Server.Os.{
  System, IsSystem, DurableDisk, Result, ok, err, last_os_error, call, get_wal, set_wal, and_then,
  and_then_ok, and_then_err,
}
use raft_rupee.Server.Storage.{
  encode, append_log_entries, replay, replayed, replay_wal, entries_before, truncate_and_append,
}
use raft_rupee.Server.Wal.{HasFault, Unchanged, append_log_entries_lem}

-- How `truncate_and_append` can end: `kept` are the entries of the log file that it keeps, `es` the
-- new ones, and `o` is its result with the disk that it leaves.
pub data Truncated (os : System) (d : DurableDisk) (kept es : List LogEntry)
    (o : Result (Unit {0}) × DurableDisk) : Type 0 where
  -- An error before the truncation.
  untouched : HasFault os → o.0 ≡ err last_os_error → Unchanged d o.1 → Truncated os d kept es o
  -- An error before anything is written again: every entry is lost.
  emptied :
      HasFault os
      → o.0 ≡ err last_os_error
      → o.1.wal_file ≡ []
      → o.1.hs_file ≡ d.hs_file
      → Truncated os d kept es o
  -- An error before the new entries are written.
  kept_only :
      (padding : Bytes)
      → HasFault os
      → o.0 ≡ err last_os_error
      → length padding < 4096
      → o.1.wal_file ≡ encode os kept ++ padding
      → o.1.hs_file ≡ d.hs_file
      → Truncated os d kept es o
  -- Each of the two batches stands in sectors of its own.
  done :
      (padding behind : Bytes)
      → o.0 ≡ ok tt
      → length padding < 4096
      → length behind < 4096
      → o.1.wal_file ≡ (encode os kept ++ padding) ++ (encode os es ++ behind)
      → o.1.hs_file ≡ d.hs_file
      → Truncated os d kept es o

-- `kept` is what stands before the first entry of index `from_index` or more.
pub record IsKept (from_index : LogIndex) (old kept : List LogEntry) : Type 0 where
  pub dropped : List LogEntry
  pub whole : old ≡ kept ++ dropped
  pub below : All (λ (e : LogEntry). e.index < from_index) kept
  pub stops : (e : LogEntry) (rest : List LogEntry) → dropped ≡ e ∷ rest → from_index ≤ e.index

entries_before-dropped :
    (from_index : LogIndex) (dropped : List LogEntry)
    → ((e : LogEntry) (rest : List LogEntry) → dropped ≡ e ∷ rest → from_index ≤ e.index)
    → entries_before from_index dropped ≡ []
unfolding entries_before
entries_before-dropped from_index [] h = refl
entries_before-dropped from_index (e ∷ rest) h =
    let at : leb from_index e.index ≡ true = le→leb _ _ (h e rest refl) in rw at refl

entries_before-append :
    (from_index : LogIndex) (kept dropped : List LogEntry)
    → All (λ (e : LogEntry). e.index < from_index) kept
    → entries_before from_index dropped ≡ []
    → entries_before from_index (kept ++ dropped) ≡ kept
unfolding entries_before
entries_before-append from_index [] dropped low none = none
entries_before-append from_index (e ∷ kept) dropped (lt, low) none =
    let under : leb from_index e.index ≡ false = ground (arith, lt) in
    rw (under, entries_before-append from_index kept dropped low none) refl

IsKept-entries_before :
    (from_index : LogIndex) (old kept : List LogEntry)
    → IsKept from_index old kept
    → entries_before from_index old ≡ kept
IsKept-entries_before from_index old kept k =
    ap (entries_before from_index) k.whole
    ∙ entries_before-append from_index kept k.dropped k.below
        (entries_before-dropped from_index k.dropped k.stops)

module _ (os : System) (is_os : IsSystem os) (from_index : LogIndex) (es : List LogEntry)
    (fits : length (encode os es) + 4095 < 2 ^ 64) where
  -- The two writes into the empty file, and the seek before them.
  rewritten :
      (d d' : DurableDisk) (kept : List LogEntry)
      → length (encode os kept) + 4095 < 2 ^ 64
      → d'.wal_file ≡ []
      → d'.hs_file ≡ d.hs_file
      → Truncated os d kept es
          (and_then (append_log_entries os kept d') (λ _. append_log_entries os es))
  rewritten d d' kept small empty hs = elim (append_log_entries_lem os is_os d' kept small) [
    | inr (fault, failed, same) ↦
        rw (and_then_err (append_log_entries os kept d') (λ _. append_log_entries os es) failed)
          (Truncated.emptied fault refl (same.wal ∙ empty) (same.hs ∙ hs))
    | inl (padding, succeeded, first) ↦
        let d'' = (append_log_entries os kept d').1 in
        let at_start = first.wal ∙ ap (λ w. w ++ (encode os kept ++ padding)) empty in
        rw (and_then_ok (append_log_entries os kept d') (λ _. append_log_entries os es) succeeded)
          (elim (append_log_entries_lem os is_os d'' es fits) [
            | inr (fault, failed, same) ↦
                Truncated.kept_only padding fault failed first.short (same.wal ∙ at_start)
                  (same.hs ∙ first.hs ∙ hs)
            | inl (behind, succeeded', second) ↦
                Truncated.done padding behind succeeded' first.short second.short
                  (second.wal ∙ ap (λ w. w ++ (encode os es ++ behind)) at_start)
                  (second.hs ∙ first.hs ∙ hs)
          ])
  ]

  -- Every way in which `truncate_and_append` ends, an error only where a system call fails. The entries
  -- of the log file are those that a replay yields; `kept` are the ones before the first of index
  -- `from_index` or more, and the others are dropped; the kept entries and the new ones each fit a
  -- buffer.
  pub truncate_and_append-Truncated :
      (d : DurableDisk) (old kept : List LogEntry)
      → replay os d.wal_file ≡ some old
      → IsKept from_index old kept
      → length (encode os kept) + 4095 < 2 ^ 64
      → Truncated os d kept es (truncate_and_append os from_index es d)
  unfolding truncate_and_append replay_wal replayed call get_wal set_wal
  truncate_and_append-Truncated d old kept read is_kept small =
      let same = IsKept-entries_before from_index old kept is_kept in
      elim (Bool-cases (os.fails d.time)) [
        | inl f ↦ rw f (Truncated.untouched (_, f) refl (record { wal = refl; hs = refl }))
        | inr f0 ↦ elim (Bool-cases (os.fails (d.time + 1))) [
          | inl f ↦ rw (f0, f) (Truncated.untouched (_, f) refl (record { wal = refl; hs = refl }))
          | inr f1 ↦ elim (Bool-cases (os.fails (d.time + 1 + 1))) [
            | inl f ↦
                rw (f0, f1, read, f)
                  (Truncated.untouched (_, f) refl (record { wal = refl; hs = refl }))
            | inr f2 ↦ elim (Bool-cases (os.fails (d.time + 1 + 1 + 1))) [
              | inl f ↦ rw (f0, f1, read, f2, f) (Truncated.emptied (_, f) refl refl refl)
              | inr f3 ↦ rw (f0, f1, read, f2, f3, same) (rewritten d _ kept small refl refl)
            ]
          ]
        ]
      ]
