-- ===== src/Replication/Attach.antt =====
-- The search of raft-core/src/node.rs for the entries of an append that the log already has.
use mathlib.Core.Option
use raft_rupee.Base.{
  ℕ, zero, suc, ◌+◌, ◌≤◌, ◌<◌, ◌≡◌, ◌≢◌, ap, sym, ◌∙◌, inl, inr, some, none, true, arith, u64_mod,
  Bool-cases, dec_le, dec_lt, opt_eq, opt_eq→eq, opt_eq-false→ne, List, [], ◌∷◌, length, get_elem?,
  get_elem?-some, get_elem?-none,
}
use raft_rupee.Types.{LogIndex, Term, next, next_of_lt}
use raft_rupee.Message.{LogEntry}
use raft_rupee.Log.{RaftLog, last_index, term_at, entry_at}
use raft_rupee.Log.Bounds.{IsLog, Contiguous, term_at-entry_at, entry_at_out_of_range}
use raft_rupee.Node.Entries.{attach_index}

-- The first `m` entries are in the log, and the one after them is not.
pub record Matched (l : RaftLog) (i : LogIndex) (es : List LogEntry) (m : ℕ) : Type 0 where
  pub few : m ≤ length es
  pub same :
      (k : ℕ) (e : LogEntry) → k < m → get_elem? es k ≡ some e → term_at l (i + k) ≡ some e.term
  pub differ : (e : LogEntry) → get_elem? es m ≡ some e → term_at l (i + m) ≢ some e.term

Matched-same :
    (l : RaftLog) (i : LogIndex) (x : LogEntry) (es : List LogEntry) (m k : ℕ) (e : LogEntry)
    → term_at l i ≡ some x.term
    → Matched l (suc i) es m
    → k < suc m
    → get_elem? (x ∷ es) k ≡ some e
    → term_at l (i + k) ≡ some e.term
Matched-same l i x es m zero e h s lt g =
    let p : i + 0 ≡ i = omega arith in rw p (h ∙ ap (Option.map (λ (y : LogEntry). y.term)) g)
Matched-same l i x es m (suc k) e h s lt g =
    let p : i + suc k ≡ suc i + k = omega arith in rw p (s.same k e (omega arith) g)

Matched-cons :
    (l : RaftLog) (i : LogIndex) (x : LogEntry) (es : List LogEntry) (m : ℕ)
    → term_at l i ≡ some x.term
    → Matched l (suc i) es m
    → Matched l i (x ∷ es) (suc m)
Matched-cons l i x es m h s = record {
  few = omega (arith, s.few);
  same = λ k e lt g. Matched-same l i x es m k e h s lt g;
  differ = λ e g. let p : i + suc m ≡ suc i + m = omega arith in rw p (s.differ e g);
}

Matched-nil :
    (l : RaftLog) (i : LogIndex) (x : LogEntry) (es : List LogEntry)
    → term_at l i ≢ some x.term
    → Matched l i (x ∷ es) 0
Matched-nil l i x es f = record {
  few = omega arith;
  same = λ k e h. absurd (omega arith);
  differ = λ e g h.
      let p : i + 0 ≡ i = omega arith in
      f (rw p at h ∙ ap (Option.map (λ (y : LogEntry). y.term)) (sym g));
}

attach_from :
    (l : RaftLog) (i : LogIndex) (x : LogEntry) (es : List LogEntry) (m : ℕ)
    → opt_eq (term_at l x.index) (some x.term) ≡ true
    → next x.index ≡ suc i
    → attach_index l (suc i) es ≡ suc i + m
    → attach_index l i (x ∷ es) ≡ i + suc m
unfolding attach_index
attach_from l i x es m match e a =
    let p : suc i + m ≡ i + suc m = omega arith in rw (match, e) (a ∙ p)

pub attach_index_lem :
    (l : RaftLog) (i : LogIndex) (es : List LogEntry)
    → Contiguous i es
    → i + length es < u64_mod
    → (m : ℕ) × (attach_index l i es ≡ i + m) × Matched l i es m
unfolding attach_index
attach_index_lem l i [] c f = (
  0,
  omega arith,
  record { few = omega arith; same = λ k e h. absurd (omega arith); differ = λ e g. cc },
)
attach_index_lem l i (x ∷ es) c f = elim (Bool-cases (opt_eq (term_at l x.index) (some x.term))) [
  | inl match ↦
      let h : term_at l i ≡ some x.term =
        rw c.0 at (opt_eq→eq (term_at l x.index) (some x.term) match) in
      let e : next x.index ≡ suc i = next_of_lt x.index (omega (arith, c.0)) ∙ omega (arith, c.0) in
      let (m, a, s) = attach_index_lem l (suc i) es c.1 (omega arith) in
      (suc m, attach_from l i x es m match e a, Matched-cons l i x es m h s)
  | inr clash ↦
      let f : term_at l i ≢ some x.term =
        rw c.0 at (opt_eq-false→ne (term_at l x.index) (some x.term) clash) in
      (0, rw clash (omega arith), Matched-nil l i x es f)
]

pub get_elem?-lt :
    (es : List LogEntry) (k : ℕ) (e : LogEntry) → get_elem? es k ≡ some e → k < length es
get_elem?-lt es k e g = elim (dec_lt k (length es)) [
  | yes lt ↦ lt
  | no far ↦ ground (arith, get_elem?-none es k)
]

pub term_at-le :
    {l : RaftLog} (i : LogIndex) (t : Term) → IsLog l → term_at l i ≡ some t → i ≤ last_index l
term_at-le {l} i t v h = elim (dec_le i (last_index l)) [
  | yes le ↦ le
  | no far ↦
      let out : entry_at l i ≡ none = entry_at_out_of_range i v (inr (omega arith)) in
      let g = term_at-entry_at l i in ground (arith, rw out at g)
]

-- The first `m` are below the end of the log.
pub Matched-le :
    (l : RaftLog) (i : LogIndex) (es : List LogEntry) (m : ℕ)
    → IsLog l
    → i ≤ last_index l + 1
    → Matched l i es m
    → i + m ≤ last_index l + 1
Matched-le l i es zero v hi s = omega arith
Matched-le l i es (suc m) v hi s =
    let (e, g) = get_elem?-some es m (omega (arith, s.few)) in
    omega (arith, term_at-le (i + m) e.term v (s.same m e (omega arith) g))

-- A slot with a term is at or above the base.
pub term_at-ge :
    {l : RaftLog} (i : LogIndex) (t : Term) → IsLog l → term_at l i ≡ some t → l.sentinel.index ≤ i
term_at-ge {l} i t v h = elim (dec_le l.sentinel.index i) [
  | yes le ↦ le
  | no below ↦
      let out : entry_at l i ≡ none = entry_at_out_of_range i v (inl (omega arith)) in
      let g = term_at-entry_at l i in ground (arith, rw out at g)
]
