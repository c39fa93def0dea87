-- ===== src/Types.antt =====
-- raft-core/src/types.rs: terms, log indices and node ids. Each is a newtype of u64, and is held
-- here as the number that it wraps.
use raft_rupee.Base.{ℕ, ◌+◌, ◌-◌, ◌<◌, ◌≡◌, add64, add64_of_lt, u64_mod}

abbrev pub Term : Type 0
Term = ℕ

abbrev pub LogIndex : Type 0
LogIndex = ℕ

abbrev pub NodeId : Type 0
NodeId = ℕ

-- `Term::ZERO`
abbrev pub zero_term : Term
zero_term = 0

-- `LogIndex::SENTINEL`
abbrev pub sentinel_index : LogIndex
sentinel_index = 0

-- `Term::next`
unfoldable pub next_term : Term → Term
next_term t = add64 t 1

-- `LogIndex::next`
unfoldable pub next : LogIndex → LogIndex
next i = add64 i 1

-- `LogIndex::prev`, a saturating subtraction
unfoldable pub prev : LogIndex → LogIndex
prev i = i - 1

pub next_term_of_lt : (t : Term) → t + 1 < u64_mod → next_term t ≡ t + 1
unfolding next_term
next_term_of_lt t h = add64_of_lt t 1 h

pub next_of_lt : (i : LogIndex) → i + 1 < u64_mod → next i ≡ i + 1
unfolding next
next_of_lt i h = add64_of_lt i 1 h
