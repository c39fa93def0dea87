-- ===== src/Ledger/Match.antt =====
-- Two logs of raft-core/src/log.rs that follow one ledger.
use raft_rupee.Base.{
  ℕ, zero, suc, ◌+◌, ◌-◌, ◌≤◌, ◌<◌, ◌≡◌, refl, sym, ap, ◌∙◌, subst, List, [], ◌∷◌, some, get_elem?,
  some_inj, arith, ltb, false, map-eq-some,
}
use raft_rupee.Types.{Term, LogIndex}
use raft_rupee.Message.{Bytes, LogEntry}
use raft_rupee.Log.{RaftLog, entry_at, term_at}
use raft_rupee.Log.Bounds.{IsLog, entry_at-index, term_at-entry_at}
use raft_rupee.Ledger.Chain.{Ledger, Chain, LogChain}

module _ (k : Ledger) where
  Chain-get_elem? :
      (s : LogEntry) (xs : List LogEntry) (m : ℕ) (e : LogEntry)
      → Chain k s.term xs
      → get_elem? xs m ≡ some e
      → (d : LogEntry) × (get_elem? (s ∷ xs) m ≡ some d)
        × (k e.term e.index ≡ some (d.term, e.command))
  Chain-get_elem? s [] m e c h = cc
  Chain-get_elem? s (x ∷ xs) zero e c h = (
    s,
    refl,
    subst (λ (y : LogEntry). k y.term y.index ≡ some (s.term, y.command)) (some_inj h) c.0,
  )
  Chain-get_elem? s (x ∷ xs) (suc m) e c h = Chain-get_elem? x xs m e c.1 h

  -- A slot above the base, and the one before it.
  LogChain-entry_at :
      (l : RaftLog) (i : LogIndex) (e : LogEntry)
      → LogChain k l
      → l.sentinel.index ≤ i
      → entry_at l (suc i) ≡ some e
      → (u : Term) × (term_at l i ≡ some u) × (k e.term e.index ≡ some (u, e.command))
  unfolding entry_at term_at
  LogChain-entry_at l i e c low h =
      let base = l.sentinel.index in
      let up : ltb (suc i) base ≡ false = ground (arith, low) in
      let up' : ltb i base ≡ false = ground (arith, low) in
      let n : suc i - base ≡ suc (i - base) = omega (arith, low) in
      let at : get_elem? l.rest (i - base) ≡ some e = rw (up, n) at h in
      let (d, before, put) = Chain-get_elem? l.sentinel l.rest (i - base) e c at in
      (d.term, rw (up', before) refl, put)

same_entry : (a b : LogEntry) → a.index ≡ b.index → a.term ≡ b.term → a.command ≡ b.command → a ≡ b
same_entry a b e f g = ground arith

module _ (k : Ledger) (l l' : RaftLog) (c : LogChain k l) (c' : LogChain k l') (v : IsLog l)
    (v' : IsLog l') where
  abbrev Agree : LogIndex → Type 0
  Agree i = (t : Term) × (term_at l i ≡ some t) × (term_at l' i ≡ some t)

  below-Agree :
      (i : LogIndex)
      → l.sentinel.index ≤ i
      → l'.sentinel.index ≤ i
      → Agree (suc i)
      → Agree i × (entry_at l (suc i) ≡ entry_at l' (suc i))
  below-Agree i low low' (t, at, at') =
      let (a, here, term) =
        map-eq-some _ (entry_at l (suc i)) (sym (term_at-entry_at l (suc i)) ∙ at) in
      let (b, here', term') =
        map-eq-some _ (entry_at l' (suc i)) (sym (term_at-entry_at l' (suc i)) ∙ at') in
      let (u, before, put) = LogChain-entry_at k l i a c low here in
      let (u', before', put') = LogChain-entry_at k l' i b c' low' here' in
      let index : a.index ≡ b.index =
        entry_at-index (suc i) v here ∙ sym (entry_at-index (suc i) v' here') in
      let terms : a.term ≡ b.term = term ∙ sym term' in
      let both : (u, a.command) ≡ (u', b.command) =
        some_inj (sym put ∙ rw (terms, index) refl ∙ put') in
      let same : a ≡ b = same_entry a b index terms (ap (λ (p : Term × Bytes). p.1) both) in
      (
        (u, before, before' ∙ ap some (sym (ap (λ (p : Term × Bytes). p.0) both))),
        here ∙ ap some same ∙ sym here',
      )

  matching_from :
      (d : ℕ) (i : LogIndex)
      → l.sentinel.index ≤ i
      → l'.sentinel.index ≤ i
      → Agree (i + suc d)
      → Agree i × (entry_at l (suc i) ≡ entry_at l' (suc i))
  matching_from zero i low low' agree =
      let e : i + 1 ≡ suc i = omega arith in below-Agree i low low' (subst Agree e agree)
  matching_from (suc d) i low low' agree =
      let e : i + suc (suc d) ≡ suc i + suc d = omega arith in
      let next =
        matching_from d (suc i) (omega (arith, low)) (omega (arith, low')) (subst Agree e agree) in
      below-Agree i low low' next.0

  -- Logs that have the same term in a slot have the same terms and entries below it, as far as both
  -- go.
  pub matching_below :
      (i x : LogIndex) (t : Term)
      → term_at l x ≡ some t
      → term_at l' x ≡ some t
      → l.sentinel.index ≤ i
      → l'.sentinel.index ≤ i
      → i < x
      → (term_at l i ≡ term_at l' i) × (entry_at l (suc i) ≡ entry_at l' (suc i))
  matching_below i x t at at' low low' lt =
      let d : ℕ = x - i - 1 in
      let e : x ≡ i + suc d = omega (arith, lt) in
      let ((u, a, b), same) = matching_from d i low low' (subst Agree e (t, at, at')) in
      (a ∙ sym b, same)
