-- ===== src/Log/Bounds.antt =====
-- The invariant that the comment on `RaftLog` states, and what the accessors of
-- raft-core/src/log.rs return under it.
use mathlib.Core.Option
use raft_rupee.Base.{
  ℕ, zero, suc, ◌+◌, ◌-◌, ◌≤◌, ◌<◌, ◌≡◌, refl, sym, List, [], ◌∷◌, ◌++◌, none, some, subst, length,
  get_elem?, last_of, take, drop, arith, u64_mod, get_elem?-none, get_elem?-some, ◌⊎◌,
}
use raft_rupee.Types.{LogIndex}
use raft_rupee.Message.{LogEntry}
use raft_rupee.Log.Defs.{RaftLog, entries, last_index, entry_at, term_at}

-- The entries of the list have the indices i, i + 1, …
abbrev pub Contiguous : LogIndex → List LogEntry → Type 0
Contiguous i [] = Unit {0}
Contiguous i (e ∷ es) = (e.index ≡ i) × Contiguous (suc i) es

-- `entries[i].index.0 == entries[0].index.0 + i`, and the indices fit a u64.
pub record IsLog (l : RaftLog) : Type 0 where
  pub contiguous : Contiguous (suc l.sentinel.index) l.rest
  pub fits : l.sentinel.index + length l.rest + 1 < u64_mod

pub Contiguous-append :
    (i j : LogIndex) (xs ys : List LogEntry)
    → j ≡ i + length xs
    → Contiguous i xs
    → Contiguous j ys
    → Contiguous i (xs ++ ys)
Contiguous-append i j [] ys e hx hy =
    let p : j ≡ i = omega arith in subst (λ k. Contiguous k ys) p hy
Contiguous-append i j (x ∷ xs) ys e hx hy =
    (hx.0, Contiguous-append (suc i) j xs ys (omega arith) hx.1 hy)

pub Contiguous-take :
    (i : LogIndex) (n : ℕ) (xs : List LogEntry) → Contiguous i xs → Contiguous i (take n xs)
Contiguous-take i zero xs h = tt
Contiguous-take i (suc n) [] h = tt
Contiguous-take i (suc n) (x ∷ xs) h = (h.0, Contiguous-take (suc i) n xs h.1)

pub Contiguous-drop :
    (i : LogIndex) (n : ℕ) (xs : List LogEntry) → Contiguous i xs → Contiguous (i + n) (drop n xs)
Contiguous-drop i zero xs h = let p : i ≡ i + 0 = omega arith in subst (λ k. Contiguous k xs) p h
Contiguous-drop i (suc n) [] h = tt
Contiguous-drop i (suc n) (x ∷ xs) h =
    let p : suc i + n ≡ i + suc n = omega arith in
    subst (λ k. Contiguous k (drop n xs)) p (Contiguous-drop (suc i) n xs h.1)

pub Contiguous-get_elem? :
    (i : LogIndex) (xs : List LogEntry) (k : ℕ) (e : LogEntry)
    → Contiguous i xs
    → get_elem? xs k ≡ some e
    → e.index ≡ i + k
Contiguous-get_elem? i [] k e h g = ground arith
Contiguous-get_elem? i (x ∷ xs) zero e h g = ground arith
Contiguous-get_elem? i (x ∷ xs) (suc k) e h g =
    omega (arith, Contiguous-get_elem? (suc i) xs k e h.1 g)

pub last_of-index :
    (e : LogEntry) (xs : List LogEntry)
    → Contiguous (suc e.index) xs
    → (last_of e xs).index ≡ e.index + length xs
last_of-index e [] h = omega arith
last_of-index e (x ∷ xs) h =
    omega (arith, last_of-index x xs (subst (λ k. Contiguous (suc k) xs) (sym h.0) h.1))

-- The last index is the base plus the number of entries after the sentinel.
pub last_index_lem : {l : RaftLog} → IsLog l → last_index l ≡ l.sentinel.index + length l.rest
unfolding last_index
last_index_lem {l} v = last_of-index l.sentinel l.rest v.contiguous

pub entry_at-index :
    {l : RaftLog} (i : LogIndex) {e : LogEntry} → IsLog l → entry_at l i ≡ some e → e.index ≡ i
unfolding entry_at
entry_at-index {l} i {e} v h = ground (
  arith,
  Contiguous-get_elem? l.sentinel.index (entries l) (i - l.sentinel.index) e (refl, v.contiguous),
)

-- A slot is filled exactly from the base to the last index.
pub entry_at_in_range :
    {l : RaftLog} (i : LogIndex)
    → IsLog l
    → l.sentinel.index ≤ i
    → i ≤ last_index l
    → (e : LogEntry) × (entry_at l i ≡ some e)
unfolding entry_at
entry_at_in_range {l} i v lo hi =
    let (e, g) =
      get_elem?-some (entries l) (i - l.sentinel.index) (omega (arith, last_index_lem v)) in
    (e, ground arith)

pub term_at-entry_at :
    (l : RaftLog) (i : LogIndex) → term_at l i ≡ Option.map (λ e. e.term) (entry_at l i)
unfolding term_at entry_at
term_at-entry_at l i = ground arith

pub entry_at_out_of_range :
    {l : RaftLog} (i : LogIndex)
    → IsLog l
    → (i < l.sentinel.index) ⊎ (last_index l < i)
    → entry_at l i ≡ none
unfolding entry_at
entry_at_out_of_range {l} i v h =
    ground (arith, last_index_lem v, get_elem?-none (entries l) (i - l.sentinel.index))
