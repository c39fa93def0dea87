-- ===== src/Replication/Accept.antt =====
-- How a follower of raft-core/src/node.rs stores the entries of an append.
use raft_rupee.Base.{
  ℕ, ◌+◌, ◌-◌, ◌≤◌, ◌<◌, ◌≡◌, refl, sym, ◌∙◌, some, true, false, arith, u64_mod, if◌then◌else◌, ltb,
  dec_lt, subst, List, ◌∷◌, length, get_elem?, drop, length-drop, get_elem?-drop, get_elem?-some,
  sub64, sub64_of_le, inl, inr, ◌⊎◌, take, ◌++◌,
}
use raft_rupee.Types.{LogIndex}
use raft_rupee.Message.{LogEntry}
use raft_rupee.Log.{RaftLog, last_index, term_at, entry_at, truncate_and_append}
use raft_rupee.Log.Bounds.{IsLog, Contiguous, Contiguous-drop, term_at-entry_at}
use raft_rupee.Log.Edits.{truncate_and_append-IsLog, truncate_and_append-entry_at}
use raft_rupee.Node.State.{Action, RaftNode, Outcome, done, push}
use raft_rupee.Node.Entries.{attach_index, store_entries}
use raft_rupee.Replication.Attach.{Matched, attach_index_lem, get_elem?-lt, Matched-le}

-- The log after a follower has stored the entries `es`, which start at index `i`.
pub record HasStored (l l' : RaftLog) (i : LogIndex) (es : List LogEntry) : Type 0 where
  pub valid : IsLog l'
  pub before : (j : LogIndex) → j < i → entry_at l' j ≡ entry_at l j
  pub agree : (k : ℕ) (e : LogEntry) → get_elem? es k ≡ some e → term_at l' (i + k) ≡ some e.term
  pub kept :
      ((k : ℕ) (e : LogEntry) → get_elem? es k ≡ some e → term_at l (i + k) ≡ some e.term) → l' ≡ l

-- All of them were there.
HasStored-all :
    (l : RaftLog) (i : LogIndex) (es : List LogEntry)
    → IsLog l
    → Matched l i es (length es)
    → HasStored l l i es
HasStored-all l i es v s = record {
  valid = v;
  before = λ j h. refl;
  agree = λ k e g. s.same k e (get_elem?-lt es k e g) g;
  kept = λ h. refl;
}

-- The first `m` stay, and the others are stored.
suffix_agree :
    (l l' : RaftLog) (i : LogIndex) (es : List LogEntry) (m k : ℕ) (e : LogEntry)
    → Matched l i es m
    → ((j : LogIndex)
        → entry_at l' j
          ≡ (if ltb j (i + m) then entry_at l j else get_elem? (drop m es) (j - (i + m))))
    → get_elem? es k ≡ some e
    → term_at l' (i + k) ≡ some e.term
suffix_agree l l' i es m k e s t g = elim (dec_lt k m) [
  | yes lt ↦
      let old : term_at l (i + k) ≡ some e.term = s.same k e lt g in
      ground (arith, t (i + k), term_at-entry_at l (i + k), term_at-entry_at l' (i + k))
  | no ge ↦
      let q : i + k - (i + m) ≡ k - m = omega arith in
      let q' : m + (k - m) ≡ k = omega arith in
      ground (arith, q, q', t (i + k), term_at-entry_at l' (i + k), get_elem?-drop m es (k - m))
]

-- The first `m` were, and the others replace what was there.
HasStored-suffix :
    (l l' : RaftLog) (i : LogIndex) (es : List LogEntry) (m : ℕ)
    → IsLog l
    → l.sentinel.index < i
    → i ≤ last_index l + 1
    → Contiguous i es
    → i + length es < u64_mod
    → m < length es
    → Matched l i es m
    → truncate_and_append l (i + m) (drop m es) ≡ some l'
    → HasStored l l' i es
HasStored-suffix l l' i es m v base hi c f lt s t =
    let le : i + m ≤ last_index l + 1 = Matched-le l i es m v hi s in
    let slots : (j : LogIndex)
        → entry_at l' j
          ≡ (if ltb j (i + m) then entry_at l j else get_elem? (drop m es) (j - (i + m))) =
      λ j. truncate_and_append-entry_at (i + m) (drop m es) j v le t in
    record {
      valid =
          truncate_and_append-IsLog (i + m) (drop m es) v le (Contiguous-drop i m es c)
            (omega (arith, length-drop m es)) t;
      before = λ j h. ground (arith, slots j);
      agree = λ k e g. suffix_agree l l' i es m k e s slots g;
      kept = λ h. let (e, g) = get_elem?-some es m lt in absurd (s.differ e g (h m e g));
    }

-- The suffix from the first `m` entries on is stored.
pub record Replaced (n : RaftNode) (i : LogIndex) (es : List LogEntry) (m : ℕ) : Type 0 where
  pub fewer : m < length es
  pub matched : Matched n.log i es m
  pub log : RaftLog
  pub stored : truncate_and_append n.log (i + m) (drop m es) ≡ some log
  pub result :
      store_entries n es
      ≡ some (push (record n { log = log }) (Action.truncate_and_append (i + m) (drop m es)))

-- Either the log has all the entries and nothing is done, or what it lacks is stored.
pub store_entries-cases :
    (n : RaftNode) (i : LogIndex) (e : LogEntry) (es : List LogEntry)
    → IsLog n.log
    → n.log.sentinel.index < i
    → i ≤ last_index n.log + 1
    → Contiguous i (e ∷ es)
    → i + length (e ∷ es) < u64_mod
    → ((store_entries n (e ∷ es) ≡ some (done n)) × Matched n.log i (e ∷ es) (length (e ∷ es)))
      ⊎ ((m : ℕ) × Replaced n i (e ∷ es) m)
unfolding store_entries truncate_and_append
store_entries-cases n i e es v base hi c f =
    let (m, a, s) = attach_index_lem n.log i (e ∷ es) c f in
    let a' : attach_index n.log e.index (e ∷ es) ≡ i + m =
      subst (λ j. attach_index n.log j (e ∷ es) ≡ i + m) (sym c.0) a in
    let d : i + m - e.index ≡ m = omega (arith, c.0) in
    let b : sub64 (i + m) e.index ≡ m =
      sub64_of_le (i + m) e.index (omega (arith, c.0)) (omega (arith, s.few)) ∙ d in
    elim (dec_lt m (length (e ∷ es))) [
      | yes lt ↦
          let t : ltb n.log.sentinel.index (i + m) ≡ true = ground (arith, base) in
          let t' : ltb m (length (e ∷ es)) ≡ true = ground (arith, lt) in
          inr (
            m,
            record {
              fewer = lt;
              matched = s;
              log = record (n.log) {
                rest = take (i + m - n.log.sentinel.index - 1) n.log.rest ++ drop m (e ∷ es);
              };
              stored = rw t refl;
              result = rw (a', b, t', t) refl;
            },
          )
      | no ge ↦
          let p : m ≡ length (e ∷ es) = omega (arith, s.few) in
          let t' : ltb m (length (e ∷ es)) ≡ false = ground arith in
          inl (rw (a', b, t') refl, subst (λ k. Matched n.log i (e ∷ es) k) p s)
    ]

-- What `store_entries` makes of entries that start at `i`, a slot of the log or the one after it.
-- It does not panic, the new log is a log, the slots before `i` are as they were, each entry is in
-- its slot by term, and a log that had them all is the same log.
pub store_entries_lem :
    (n : RaftNode) (i : LogIndex) (e : LogEntry) (es : List LogEntry)
    → IsLog n.log
    → n.log.sentinel.index < i
    → i ≤ last_index n.log + 1
    → Contiguous i (e ∷ es)
    → i + length (e ∷ es) < u64_mod
    → (o : Outcome) × (store_entries n (e ∷ es) ≡ some o) × HasStored n.log o.0.log i (e ∷ es)
store_entries_lem n i e es v base hi c f = elim (store_entries-cases n i e es v base hi c f) [
  | inl all ↦ (done n, all.0, HasStored-all n.log i (e ∷ es) v all.1)
  | inr (m, q) ↦ (
    _,
    q.result,
    HasStored-suffix n.log q.log i (e ∷ es) m v base hi c f q.fewer q.matched q.stored,
  )
]
