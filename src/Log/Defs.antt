-- ===== src/Log/Defs.antt =====
-- raft-core/src/log.rs: `RaftLog` and its operations. `entries` is a Vec that is never empty: every
-- constructor makes entry 0, and no operation removes it. It is held as that entry, `sentinel`, and
-- the entries after it, `rest`, so the `entries[0]` and `last().unwrap()` of the source cannot fail.
use raft_rupee.Base.{
  ◌-◌, List, [], ◌∷◌, ◌++◌, Option, none, some, Bool, length, get_elem?, take, drop, last_of, ltb,
  leb, ◌==◌, if◌then◌else◌, ℕ,
}
use mathlib.Core.Option
use raft_rupee.Types.{Term, LogIndex, zero_term, sentinel_index}
use raft_rupee.Message.{LogEntry, SnapshotMeta}

pub record RaftLog : Type 0 where
  pub sentinel : LogEntry
  pub rest : List LogEntry

-- The Vec `entries` of the source.
abbrev pub entries : RaftLog → List LogEntry
entries l = l.sentinel ∷ l.rest

-- An entry without a command, as every sentinel is.
abbrev pub base_entry : LogIndex → Term → LogEntry
base_entry i t = record { index = i; term = t; command = [] }

-- `RaftLog::new`
unfoldable pub new : RaftLog
new = record { sentinel = base_entry sentinel_index zero_term; rest = [] }

unfoldable pub restore : SnapshotMeta → List LogEntry → RaftLog
restore m es = record {
  sentinel = base_entry m.last_included_index m.last_included_term;
  rest = es;
}

unfoldable pub last_index : RaftLog → LogIndex
last_index l = (last_of l.sentinel l.rest).index

unfoldable pub last_term : RaftLog → Term
last_term l = (last_of l.sentinel l.rest).term

unfoldable pub first_index : RaftLog → LogIndex
first_index l = l.sentinel.index

-- `checked_sub` fails below the base, `get` beyond the end.
unfoldable pub entry_at : RaftLog → LogIndex → Option LogEntry
entry_at l i = if ltb i l.sentinel.index then none else get_elem? (entries l) (i - l.sentinel.index)

unfoldable pub term_at : RaftLog → LogIndex → Option Term
term_at l i =
    if ltb i l.sentinel.index
    then none
    else Option.map (λ e. e.term) (get_elem? (entries l) (i - l.sentinel.index))

-- The `debug_assert` on contiguity is not part of a release build.
unfoldable pub append : RaftLog → List LogEntry → RaftLog
append l [] = l
append l (e ∷ es) = record l { rest = l.rest ++ e ∷ es }

-- `none` is the failed `assert`. A kept offset is at least 1, so the sentinel stays.
unfoldable pub truncate_and_append : RaftLog → LogIndex → List LogEntry → Option RaftLog
truncate_and_append l from es =
    let base = l.sentinel.index in
    if ltb base from then some (record l { rest = take (from - base - 1) l.rest ++ es }) else none

unfoldable pub entries_from : RaftLog → LogIndex → List LogEntry
entries_from l start =
    let base = l.sentinel.index in
    if leb start base
    then l.rest
    else if leb (length (entries l)) (start - base)
    then []
    else drop (start - base) (entries l)

unfoldable pub snapshot_meta : RaftLog → Option SnapshotMeta
snapshot_meta l =
    if l.sentinel.index == sentinel_index
    then none
    else some
        (record { last_included_index = l.sentinel.index; last_included_term = l.sentinel.term })

-- Entries up to `i` go, and the one at `i` becomes the sentinel: `split_off` at the offset, with
-- the first entry of the suffix replaced.
unfoldable pub compact : RaftLog → LogIndex → Term → RaftLog
compact l i t =
    let base = l.sentinel.index in
    if leb i base
    then l
    else if leb (length (entries l)) (i - base)
    then record { sentinel = base_entry i t; rest = [] }
    else record { sentinel = base_entry i t; rest = drop (i - base) l.rest }

unfoldable pub install_snapshot : RaftLog → SnapshotMeta → RaftLog
install_snapshot l m = record {
  sentinel = base_entry m.last_included_index m.last_included_term;
  rest = [];
}

unfoldable pub len : RaftLog → ℕ
len l = length (entries l) - 1

unfoldable pub is_empty : RaftLog → Bool
is_empty l = len l == 0
