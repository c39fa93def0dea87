-- ===== src/Sim/Writes.antt =====
-- What the writes of raft-sim/src/storage.rs make of a disk that holds the log of a node.
use raft_rupee.Base.{
  ℕ, length-append, Bool-cases, inl, inr, ltb→lt, some_inj, zero, suc, ◌+◌, ◌-◌, ◌≤◌, ◌<◌, ◌≡◌, ◌∙◌,
  sym, refl, List, [], ◌∷◌, ◌++◌, some, false, length, length-take, take, arith, ltb, subst,
  append_assoc, append-nil,
}
use raft_rupee.Types.{LogIndex, Term}
use raft_rupee.Message.{LogEntry, Bytes}
use raft_rupee.Log.{RaftLog, entries, last_index, append, compact}
use raft_rupee.Log
use raft_rupee.Log.Bounds.{IsLog, Contiguous, last_index_lem}
use raft_rupee.Sim.Disk.{
  StableDisk, write_entry, write_entries, cut, compact_entries, append_entries, truncate_and_append,
  write_snapshot,
}

write_entry_end :
    (s : LogEntry) (rest : List LogEntry) (e : LogEntry)
    → e.index ≡ s.index + suc (length rest)
    → write_entry (s ∷ rest) e ≡ some (s ∷ (rest ++ e ∷ []))
unfolding write_entry
write_entry_end s rest e h = ground arith

-- Entries that follow the last one are put there.
write_entries_end :
    (s : LogEntry) (rest es : List LogEntry)
    → Contiguous (s.index + suc (length rest)) es
    → write_entries (s ∷ rest) es ≡ some (s ∷ (rest ++ es))
unfolding write_entries
write_entries_end s rest [] c = rw (append-nil rest) refl
write_entries_end s rest (e ∷ es) c =
    let n : s.index + suc (length (rest ++ e ∷ [])) ≡ suc (s.index + suc (length rest)) =
      omega (arith, length-append rest (e ∷ [])) in
    rw (write_entries, write_entry_end s rest e c.0)
      (write_entries_end s (rest ++ e ∷ []) es (rw n c.1) ∙ rw (append_assoc rest (e ∷ []) es) refl)

entries-append :
    (l : RaftLog) (es : List LogEntry) → entries (append l es) ≡ l.sentinel ∷ (l.rest ++ es)
unfolding append
entries-append l [] = rw (append-nil l.rest) refl
entries-append l (e ∷ es) = refl

-- On a disk that holds a well-formed log, appending what follows its last entry leaves what
-- `RaftLog::append` makes of the log.
pub append_entries_lem :
    (d : StableDisk) (l : RaftLog) (es : List LogEntry)
    → IsLog l
    → d.log_entries ≡ entries l
    → Contiguous (suc (last_index l)) es
    → append_entries d es ≡ some (record d { log_entries = entries (append l es) })
unfolding append_entries
append_entries_lem d l es v h c =
    let q : suc (last_index l) ≡ l.sentinel.index + suc (length l.rest) =
      omega (arith, last_index_lem v) in
    let w = write_entries_end l.sentinel l.rest es (subst (λ k. Contiguous k es) q c) in
    rw (h, w, entries-append l es) refl

take_pred :
    (k : ℕ) (e : LogEntry) (es : List LogEntry) → 0 < k → take k (e ∷ es) ≡ e ∷ take (k - 1) es
take_pred zero e es h = absurd (omega arith)
take_pred (suc k) e es h = let p : suc k - 1 ≡ k = omega arith in rw p refl

cut_at :
    (l : RaftLog) (from : LogIndex)
    → l.sentinel.index < from
    → cut (entries l) from ≡ some (l.sentinel ∷ take (from - l.sentinel.index - 1) l.rest)
unfolding cut
cut_at l from lo =
    let t : ltb from l.sentinel.index ≡ false = ground (arith, lo) in
    rw (t, take_pred (from - l.sentinel.index) l.sentinel l.rest (omega (arith, lo))) refl

truncated :
    (l l' : RaftLog) (from : LogIndex) (es : List LogEntry)
    → Log.truncate_and_append l from es ≡ some l'
    → (l.sentinel.index < from)
      × (l' ≡ record l { rest = take (from - l.sentinel.index - 1) l.rest ++ es })
unfolding Log.truncate_and_append
truncated l l' from es t = elim (Bool-cases (ltb l.sentinel.index from)) [
  | inl lo ↦ (ltb→lt _ _ lo, sym (some_inj (rw lo at t)))
  | inr low ↦ ground arith
]

-- On a disk that holds a well-formed log, truncating and appending leaves what
-- `RaftLog::truncate_and_append` makes of the log, for an index above the base and at most one beyond
-- the last, and entries that start there.
pub truncate_and_append_lem :
    (d : StableDisk) (l l' : RaftLog) (from : LogIndex) (es : List LogEntry)
    → IsLog l
    → d.log_entries ≡ entries l
    → from ≤ last_index l + 1
    → Contiguous from es
    → Log.truncate_and_append l from es ≡ some l'
    → truncate_and_append d from es ≡ some (record d { log_entries = entries l' })
unfolding truncate_and_append append_entries
truncate_and_append_lem d l l' from es v h hi c t =
    let (lo, e) = truncated l l' from es t in
    let kept = take (from - l.sentinel.index - 1) l.rest in
    let q : from ≡ l.sentinel.index + suc (length kept) =
      omega (arith, last_index_lem v, length-take (from - l.sentinel.index - 1) l.rest) in
    let w = write_entries_end l.sentinel kept es (subst (λ k. Contiguous k es) q c) in
    rw (h, truncate_and_append, cut_at l from lo, w, e) refl

compact_entries_lem :
    (l : RaftLog) (i : LogIndex) (t : Term)
    → compact_entries (entries l) (record { last_included_index = i; last_included_term = t })
      ≡ some (entries (compact l i t))
unfolding compact_entries compact
compact_entries_lem l i t = ground arith

-- On a disk that holds a log, a snapshot leaves what `RaftLog::compact` makes of the log, and the
-- snapshot.
pub write_snapshot_lem :
    (d : StableDisk) (l : RaftLog) (i : LogIndex) (t : Term) (payload : Bytes)
    → d.log_entries ≡ entries l
    → write_snapshot d (record { last_included_index = i; last_included_term = t }) payload
      ≡ some (record d {
        snapshot = some (record { last_included_index = i; last_included_term = t }, payload);
        log_entries = entries (compact l i t);
      })
unfolding write_snapshot
write_snapshot_lem d l i t payload h = rw (h, compact_entries_lem l i t) refl
