-- ===== src/Log/Edits.antt =====
-- What `append`, `truncate_and_append`, `compact`, `restore` and `entries_from` of
-- raft-core/src/log.rs do to the slots of a log.
use raft_rupee.Base.{
  ℕ, suc, ◌+◌, ◌-◌, ◌≤◌, ◌<◌, ◌≡◌, ap, List, [], ◌∷◌, none, some, length, get_elem?, take, drop,
  arith, u64_mod, length-append, length-take, length-drop, get_elem?-append_left,
  get_elem?-append_right, get_elem?-take, get_elem?-drop, get_elem?-none, ltb, ◌==◌, max, dec_le,
  if◌then◌else◌, leb, leb→le, leb-false→lt, Bool-cases, inl, inr, refl,
}
use raft_rupee.Types.{Term, LogIndex}
use raft_rupee.Message.{LogEntry, SnapshotMeta}
use raft_rupee.Log.Defs.{
  RaftLog, entries, last_index, entry_at, entries_from, append, truncate_and_append, compact,
  restore, base_entry, install_snapshot,
}
use raft_rupee.Log.Bounds.{
  Contiguous, IsLog, Contiguous-append, Contiguous-take, Contiguous-drop, last_index_lem,
}

pub restore-IsLog :
    (m : SnapshotMeta) (es : List LogEntry)
    → Contiguous (suc m.last_included_index) es
    → m.last_included_index + length es + 1 < u64_mod
    → IsLog (restore m es)
unfolding restore
restore-IsLog m es c f = record { contiguous = c; fits = f }

pub install_snapshot-IsLog :
    (l : RaftLog) (m : SnapshotMeta)
    → m.last_included_index + 1 < u64_mod
    → IsLog (install_snapshot l m)
unfolding install_snapshot
install_snapshot-IsLog l m f = record { contiguous = tt; fits = omega arith }

pub append-IsLog :
    {l : RaftLog} (es : List LogEntry)
    → IsLog l
    → Contiguous (suc (last_index l)) es
    → last_index l + length es + 1 < u64_mod
    → IsLog (append l es)
unfolding append
append-IsLog [] v c f = v
append-IsLog {l} (e ∷ es) v c f = record {
  contiguous =
      Contiguous-append (suc l.sentinel.index) (suc (last_index l)) l.rest (e ∷ es)
        (omega (arith, last_index_lem v)) v.contiguous c;
  fits = omega (arith, last_index_lem v, length-append l.rest (e ∷ es));
}

-- An append to a well-formed log leaves every slot up to the last index as it was and fills the next
-- ones with the new entries, in order.
pub append-entry_at :
    {l : RaftLog} (es : List LogEntry) (i : LogIndex)
    → IsLog l
    → entry_at (append l es) i
      ≡ (if ltb (last_index l) i then get_elem? es (i - suc (last_index l)) else entry_at l i)
unfolding append entry_at
append-entry_at {l} [] i v =
    ground (arith, last_index_lem v, get_elem?-none (entries l) (i - l.sentinel.index))
append-entry_at {l} (e ∷ es) i v =
    let k : ℕ = i - l.sentinel.index in
    ground (
      arith,
      last_index_lem v,
      get_elem?-append_left (entries l) (e ∷ es) k,
      get_elem?-append_right (entries l) (e ∷ es) k,
    )

pub truncate_and_append-IsLog :
    {l l' : RaftLog} (from : LogIndex) (es : List LogEntry)
    → IsLog l
    → from ≤ last_index l + 1
    → Contiguous from es
    → from + length es < u64_mod
    → truncate_and_append l from es ≡ some l'
    → IsLog l'
unfolding truncate_and_append
truncate_and_append-IsLog {l} from es v hi c f h =
    let n : ℕ = from - l.sentinel.index - 1 in
    ground (
      arith,
      last_index_lem v,
      length-take n l.rest,
      length-append (take n l.rest) es,
      Contiguous-take (suc l.sentinel.index) n l.rest v.contiguous,
      Contiguous-append (suc l.sentinel.index) from (take n l.rest) es,
    )

-- When `truncate_and_append` does not panic, on a well-formed log and from an index that is at most
-- one beyond the last, the slots below that index are as they were, and those from there on hold the
-- new entries and nothing else.
pub truncate_and_append-entry_at :
    {l l' : RaftLog} (from : LogIndex) (es : List LogEntry) (i : LogIndex)
    → IsLog l
    → from ≤ last_index l + 1
    → truncate_and_append l from es ≡ some l'
    → entry_at l' i ≡ (if ltb i from then entry_at l i else get_elem? es (i - from))
unfolding truncate_and_append entry_at
truncate_and_append-entry_at {l} from es i v hi h =
    let n : ℕ = from - l.sentinel.index - 1 in
    let k : ℕ = i - l.sentinel.index in
    ground (
      arith,
      last_index_lem v,
      length-take n l.rest,
      get_elem?-append_left (l.sentinel ∷ take n l.rest) es k,
      get_elem?-append_right (l.sentinel ∷ take n l.rest) es k,
      get_elem?-take (suc n) (entries l) k,
    )

pub compact-IsLog :
    {l : RaftLog} (i : LogIndex) (t : Term) → IsLog l → i + 1 < u64_mod → IsLog (compact l i t)
unfolding compact
compact-IsLog {l} i t v f =
    let n : ℕ = i - l.sentinel.index in
    ground
      (arith, length-drop n l.rest, Contiguous-drop (suc l.sentinel.index) n l.rest v.contiguous)

compact_old : (l : RaftLog) (i : LogIndex) (t : Term) → i ≤ l.sentinel.index → compact l i t ≡ l
unfolding compact
compact_old l i t h = ground arith

compact_beyond :
    (l : RaftLog) (i : LogIndex) (t : Term)
    → l.sentinel.index + length l.rest < i
    → compact l i t ≡ record { sentinel = base_entry i t; rest = [] }
unfolding compact
compact_beyond l i t h = ground arith

compact_inside :
    (l : RaftLog) (i : LogIndex) (t : Term)
    → l.sentinel.index < i
    → i ≤ l.sentinel.index + length l.rest
    → compact l i t
      ≡ record { sentinel = base_entry i t; rest = drop (i - l.sentinel.index) l.rest }
unfolding compact
compact_inside l i t h k = ground arith

compact-entry_at :
    {l : RaftLog} (i : LogIndex) (t : Term) (j : LogIndex)
    → IsLog l
    → l.sentinel.index < i
    → entry_at (compact l i t) j
      ≡ (if ltb j i then none else if j == i then some (base_entry i t) else entry_at l j)
unfolding entry_at
compact-entry_at {l} i t j v h = elim (dec_le i (l.sentinel.index + length l.rest)) [
  | yes inside ↦ rw (compact_inside l i t h inside) (
      ground (
        arith,
        get_elem?-drop (i - l.sentinel.index) l.rest (j - i - 1),
        get_elem?-none (drop (i - l.sentinel.index) l.rest) (j - i - 1),
      ))
  | no beyond ↦
      rw (compact_beyond l i t (omega arith))
        (ground (arith, get_elem?-none (entries l) (j - l.sentinel.index)))
]

compact-last_index :
    {l : RaftLog} (i : LogIndex) (t : Term)
    → IsLog l
    → i + 1 < u64_mod
    → last_index (compact l i t) ≡ max i (last_index l)
compact-last_index {l} i t v f =
    let w = last_index_lem (compact-IsLog i t v f) in
    elim (dec_le i l.sentinel.index) [
      | yes old ↦ rw (compact_old l i t old) (omega (arith, last_index_lem v))
      | no fresh ↦ elim (dec_le i (l.sentinel.index + length l.rest)) [
        | yes inside ↦
            let e = compact_inside l i t (omega arith) inside in
            omega (
              arith,
              w,
              ap (λ (m : RaftLog). m.sentinel.index + length m.rest) e,
              length-drop (i - l.sentinel.index) l.rest,
              last_index_lem v,
            )
        | no beyond ↦
            let e = compact_beyond l i t (omega arith) in
            omega
              (arith, w, ap (λ (m : RaftLog). m.sentinel.index + length m.rest) e, last_index_lem v)
      ]
    ]

-- Compacting a well-formed log up to an index leaves it as it was when the index is not above its
-- base. Otherwise it keeps every slot above the index, puts an entry of the given term without a
-- command at it, and empties the slots below it. The last index is the larger of the index and of the
-- last index before; the index has a successor in a u64.
pub compact_lem :
    {l : RaftLog} (i : LogIndex) (t : Term) (j : LogIndex)
    → IsLog l
    → i + 1 < u64_mod
    → (last_index (compact l i t) ≡ max i (last_index l))
      × (entry_at (compact l i t) j ≡ (
          if leb i l.sentinel.index
          then entry_at l j
          else if ltb j i
          then none
          else if j == i
          then some (base_entry i t)
          else entry_at l j))
compact_lem {l} i t j v f = (
  compact-last_index i t v f,
  elim (Bool-cases (leb i l.sentinel.index)) [
    | inl old ↦ rw (compact_old l i t (leb→le _ _ old), old) refl
    | inr fresh ↦ rw fresh (compact-entry_at i t j v (leb-false→lt _ _ fresh))
  ],
)

-- Above the base, the slice of entries from an index on holds at each offset what the slot at that
-- distance from the index holds, and ends where the log ends.
pub entries_from-entry_at :
    (l : RaftLog) (start : LogIndex) (k : ℕ)
    → l.sentinel.index < start
    → get_elem? (entries_from l start) k ≡ entry_at l (start + k)
unfolding entries_from entry_at
entries_from-entry_at l start k h = ground (
  arith,
  get_elem?-none (entries l) (start + k - l.sentinel.index),
  get_elem?-drop (start - l.sentinel.index) (entries l) k,
)
