-- ===== src/Ledger/Chain.antt =====
-- Entries of raft-core/src/log.rs one after another, by what their leaders have put down for them.
use raft_rupee.Base.{
  ℕ, zero, suc, ◌≡◌, refl, sym, ap, List, [], ◌∷◌, ◌++◌, Option, some, get_elem?, take, drop,
  last_of, some_inj,
}
use raft_rupee.Types.{Term, LogIndex}
use raft_rupee.Message.{Bytes, LogEntry}
use raft_rupee.Log.{RaftLog, last_term}

-- By the term and the index of an entry: the term of the entry before it, and its command.
abbrev pub Ledger : Type 0
Ledger = Term → LogIndex → Option (Term × Bytes)

-- The entries follow one of term `t`, each on the one before it.
abbrev pub Chain : Ledger → Term → List LogEntry → Type 0
Chain k t [] = Unit {0}
Chain k t (e ∷ es) = (k e.term e.index ≡ some (t, e.command)) × Chain k e.term es

-- The term of the last entry, after one of term `t`.
abbrev pub end_term : Term → List LogEntry → Term
end_term t [] = t
end_term t (e ∷ es) = end_term e.term es

abbrev pub LogChain : Ledger → RaftLog → Type 0
LogChain k l = Chain k l.sentinel.term l.rest

-- What a ledger says, a larger one says too.
abbrev pub Extends : Ledger → Ledger → Type 0
Extends k k' = (t : Term) (i : LogIndex) (x : Term × Bytes) → k t i ≡ some x → k' t i ≡ some x

last_of-end_term : (e : LogEntry) (es : List LogEntry) → (last_of e es).term ≡ end_term e.term es
last_of-end_term e [] = refl
last_of-end_term e (x ∷ es) = last_of-end_term x es

pub last_term-end_term : (l : RaftLog) → last_term l ≡ end_term l.sentinel.term l.rest
unfolding last_term
last_term-end_term l = last_of-end_term l.sentinel l.rest

-- An entry has the term in which the entries up to it end.
pub get_elem?-end_term :
    (s : LogEntry) (xs : List LogEntry) (i : ℕ) (e : LogEntry)
    → get_elem? (s ∷ xs) i ≡ some e
    → e.term ≡ end_term s.term (take i xs)
get_elem?-end_term s xs zero e h = ap (λ (x : LogEntry). x.term) (sym (some_inj h))
get_elem?-end_term s [] (suc i) e h = cc
get_elem?-end_term s (x ∷ xs) (suc i) e h = get_elem?-end_term x xs i e h

module _ (k : Ledger) where
  pub Chain-append :
      (t : Term) (xs ys : List LogEntry)
      → Chain k t xs
      → Chain k (end_term t xs) ys
      → Chain k t (xs ++ ys)
  Chain-append t [] ys h g = g
  Chain-append t (x ∷ xs) ys h g = (h.0, Chain-append x.term xs ys h.1 g)

  pub Chain-take : (t : Term) (n : ℕ) (xs : List LogEntry) → Chain k t xs → Chain k t (take n xs)
  Chain-take t zero xs h = tt
  Chain-take t (suc n) [] h = tt
  Chain-take t (suc n) (x ∷ xs) h = (h.0, Chain-take x.term n xs h.1)

  pub Chain-drop :
      (t : Term) (n : ℕ) (xs : List LogEntry)
      → Chain k t xs
      → Chain k (end_term t (take n xs)) (drop n xs)
  Chain-drop t zero xs h = h
  Chain-drop t (suc n) [] h = tt
  Chain-drop t (suc n) (x ∷ xs) h = Chain-drop x.term n xs h.1

  pub Chain-Extends :
      (k' : Ledger) (t : Term) (xs : List LogEntry) → Extends k k' → Chain k t xs → Chain k' t xs
  Chain-Extends k' t [] e h = tt
  Chain-Extends k' t (x ∷ xs) e h = (e _ _ _ h.0, Chain-Extends k' x.term xs e h.1)
