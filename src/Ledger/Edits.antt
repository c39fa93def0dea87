-- ===== src/Ledger/Edits.antt =====
-- The operations of raft-core/src/log.rs, and what the leaders have put down for the entries.
use mathlib.Core.Option
use raft_rupee.Base.{
  true, false, suc, ◌-◌, ◌≤◌, ◌<◌, ◌≡◌, sym, ◌∙◌, subst, inl, inr, List, [], ◌∷◌, ◌++◌, none, some,
  get_elem?, take, drop, length, some_inj, arith, Bool-cases, leb, leb-false→lt, ltb, ltb-false→le,
  map-eq-some, unwrap_or, ◌⊎◌, get_elem?-some,
}
use raft_rupee.Types.{Term, LogIndex, zero_term, prev}
use raft_rupee.Message.{LogEntry, SnapshotMeta}
use raft_rupee.Log.{
  RaftLog, entries, last_term, term_at, entries_from, append, truncate_and_append, compact,
  install_snapshot,
}
use raft_rupee.Ledger.Chain.{
  Ledger, Chain, LogChain, end_term, last_term-end_term, get_elem?-end_term, Chain-append,
  Chain-take, Chain-drop,
}

-- Where a log has a term, it is not below its base, and the entries up to there end in that term.
pub term_at-end_term :
    (l : RaftLog) (i : LogIndex) (t : Term)
    → term_at l i ≡ some t
    → (l.sentinel.index ≤ i) × (t ≡ end_term l.sentinel.term (take (i - l.sentinel.index) l.rest))
unfolding term_at
term_at-end_term l i t h = elim (Bool-cases (ltb i l.sentinel.index)) [
  | inl below ↦ let e : none ≡ some t = rw below at h in cc
  | inr above ↦
      let found : Option.map (λ (e : LogEntry). e.term)
            (get_elem? (entries l) (i - l.sentinel.index))
          ≡ some t =
        rw above at h in
      let (e, at, same) = map-eq-some _ (get_elem? (entries l) (i - l.sentinel.index)) found in
      (
        ltb-false→le _ _ above,
        sym same ∙ get_elem?-end_term l.sentinel l.rest (i - l.sentinel.index) e at,
      )
]

module _ (k : Ledger) where
  pub append-LogChain :
      (l : RaftLog) (es : List LogEntry)
      → LogChain k l
      → Chain k (last_term l) es
      → LogChain k (append l es)
  unfolding append
  append-LogChain l [] h c = h
  append-LogChain l (e ∷ es) h c =
      Chain-append k l.sentinel.term l.rest (e ∷ es) h
        (subst (λ t. Chain k t (e ∷ es)) (last_term-end_term l) c)

  pub truncate_and_append-LogChain :
      (l l' : RaftLog) (before : LogIndex) (t : Term) (es : List LogEntry)
      → LogChain k l
      → term_at l before ≡ some t
      → Chain k t es
      → truncate_and_append l (suc before) es ≡ some l'
      → LogChain k l'
  unfolding truncate_and_append
  truncate_and_append-LogChain l l' before t es h at c done =
      let (low, ends) = term_at-end_term l before t at in
      let base = l.sentinel.index in
      let above : ltb base (suc before) ≡ true = ground (arith, low) in
      let n : suc before - base - 1 ≡ before - base = omega (arith, low) in
      let made : record l { rest = take (suc before - base - 1) l.rest ++ es } ≡ l' =
        some_inj (rw above at done) in
      subst (LogChain k) made (
        rw n (
          Chain-append k l.sentinel.term (take (before - base) l.rest) es
            (Chain-take k l.sentinel.term (before - base) l.rest h)
            (subst (λ u. Chain k u es) ends c)))

  pub install_snapshot-LogChain :
      (l : RaftLog) (m : SnapshotMeta) → LogChain k (install_snapshot l m)
  unfolding install_snapshot
  install_snapshot-LogChain l m = tt

  -- The term is that of the slot, or the index is not above the base.
  pub compact-LogChain :
      (l : RaftLog) (i : LogIndex) (t : Term)
      → LogChain k l
      → (i ≤ l.sentinel.index) ⊎ (term_at l i ≡ some t)
      → LogChain k (compact l i t)
  unfolding compact
  compact-LogChain l i t h known = elim (Bool-cases (leb i l.sentinel.index)) [
    | inl old ↦ rw old h
    | inr fresh ↦ elim (Bool-cases (leb (length (entries l)) (i - l.sentinel.index))) [
      | inl beyond ↦ rw (fresh, beyond) tt
      | inr inside ↦
          let at : term_at l i ≡ some t = elim known [
            | inl low ↦ absurd (omega (arith, low, leb-false→lt _ _ fresh))
            | inr at ↦ at
          ] in
          rw (fresh, inside)
            (subst (λ u. Chain k u (drop (i - l.sentinel.index) l.rest))
              (sym (term_at-end_term l i t at).1)
              (Chain-drop k l.sentinel.term (i - l.sentinel.index) l.rest h))
    ]
  ]

  -- The index is above the base, and the slot before it holds `e`.
  inside-Chain :
      (l : RaftLog) (next : LogIndex) (e : LogEntry)
      → LogChain k l
      → l.sentinel.index < next
      → leb (length (entries l)) (next - l.sentinel.index) ≡ false
      → get_elem? (entries l) (next - 1 - l.sentinel.index) ≡ some e
      → Chain k (unwrap_or (term_at l (next - 1)) zero_term) (entries_from l next)
  unfolding entries_from term_at
  inside-Chain l next e h above inside at =
      let base = l.sentinel.index in
      let low : leb next base ≡ false = ground (arith, above) in
      let up : ltb (next - 1) base ≡ false = ground (arith, above) in
      let n : next - base ≡ suc (next - 1 - base) = omega (arith, above) in
      rw (low, inside, up, at, n)
        (subst (λ u. Chain k u (drop (next - 1 - base) l.rest))
          (sym (get_elem?-end_term l.sentinel l.rest (next - 1 - base) e at))
          (Chain-drop k l.sentinel.term (next - 1 - base) l.rest h))

  -- The entries from an index above the base follow the entry before it.
  pub entries_from-Chain :
      (l : RaftLog) (next : LogIndex)
      → LogChain k l
      → l.sentinel.index < next
      → Chain k (unwrap_or (term_at l (prev next)) zero_term) (entries_from l next)
  unfolding prev
  entries_from-Chain l next h above =
      let base = l.sentinel.index in
      elim (Bool-cases (leb (length (entries l)) (next - base))) [
        | inl beyond ↦
            let low : leb next base ≡ false = ground (arith, above) in
            unfold entries_from in rw (low, beyond) tt
        | inr inside ↦
            let (e, at) =
              get_elem?-some (entries l) (next - 1 - base)
                (omega (arith, leb-false→lt _ _ inside)) in
            inside-Chain l next e h above inside at
      ]
