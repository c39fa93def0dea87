-- ===== src/Sim/Checks.antt =====
-- The checks of raft-sim/src/invariants.rs on the clusters that the nodes can reach.
use raft_rupee.Base.{
  ◌≡◌, ◌∙◌, refl, sym, inl, inr, List, [], ◌∷◌, none, some, true, contains, map, ==_iff, ◌==◌,
  Bool-cases, if_cases, subst, All, some_inj, Option, map_insert,
}
use raft_rupee.Types.{Term, NodeId}
use raft_rupee.Node.State.{Rng, is_leader}
use raft_rupee.Cluster.System.{Cluster, Reach, Moves, here}
use raft_rupee.Cluster.Moves.{Reach-Invariant}
use raft_rupee.Cluster.Safety.{election_safety, Moves-Reach, Moves_trans}
use raft_rupee.Sim.Invariants.{
  SafetyInvariants, Verdict, check_known, check_leader, check_election_safety,
}

module _ (r : Rng) (members : List NodeId) where
  -- Member `i` led in term `t`, now or before.
  pub record Led (c : Cluster) (i : NodeId) (t : Term) : Type 0 where
    pub member : contains members i ≡ true
    pub before : Cluster
    pub reach : Reach r members before
    pub since : Moves r members before c
    pub leads : is_leader (before.node i).role ≡ true
    pub term : (before.node i).current_term ≡ t

  -- The leaders on record did lead.
  pub record IsTruthful (c : Cluster) (s : SafetyInvariants) : Type 0 where
    pub led : (t : Term) (i : NodeId) → s.term_leaders t ≡ some i → Led c i t

  -- The check of a member passes and leaves a true record.
  pub record Passes (c : Cluster) (v : Verdict) : Type 0 where
    pub record_after : SafetyInvariants
    pub passed : v ≡ Verdict.ok record_after
    pub truthful : IsTruthful c record_after

  insert-IsTruthful :
      (c : Cluster) (s : SafetyInvariants) (t : Term) (i : NodeId)
      → Led c i t
      → IsTruthful c s
      → IsTruthful c (record s { term_leaders = map_insert t i s.term_leaders })
  insert-IsTruthful c s t i l true_so_far = record {
    led = λ u j h. elim (Bool-cases (t == u)) [
      | inl same ↦
          subst (λ k. Led c j k) ((==_iff t u).0 same)
            (subst (λ k. Led c k t) (some_inj (rw same at h)) l)
      | inr other ↦ true_so_far.led u j (rw other at h)
    ];
  }

  check_known-Passes :
      (c : Cluster) (i : NodeId) (s : SafetyInvariants) (found : Option NodeId)
      → Reach r members c
      → contains members i ≡ true
      → is_leader (c.node i).role ≡ true
      → IsTruthful c s
      → s.term_leaders (c.node i).current_term ≡ found
      → Passes c (check_known (c.node i) found s)
  unfolding check_known
  check_known-Passes c i s none reach m l h e =
      let own : (c.node i).id ≡ i = (Reach-Invariant r members reach i m).id in
      let now : Led c i (c.node i).current_term = record {
        member = m;
        before = c;
        reach = reach;
        since = here;
        leads = l;
        term = refl;
      } in
      record {
        record_after = _;
        passed = refl;
        truthful =
            insert-IsTruthful c s (c.node i).current_term (c.node i).id
              (subst (λ k. Led c k (c.node i).current_term) (sym own) now) h;
      }
  check_known-Passes c i s (some k) reach m l h e =
      let own : (c.node i).id ≡ i = (Reach-Invariant r members reach i m).id in
      let p = h.led (c.node i).current_term k e in
      let same : k ≡ i =
        election_safety r members p.before c k i p.reach p.since p.member m p.leads l p.term in
      let test : (k == (c.node i).id) ≡ true = (==_iff k (c.node i).id).1 (same ∙ sym own) in
      rw test (record { record_after = s; passed = refl; truthful = h })

  check_leader-Passes :
      (c : Cluster) (i : NodeId) (s : SafetyInvariants)
      → Reach r members c
      → contains members i ≡ true
      → IsTruthful c s
      → Passes c (check_leader (c.node i) s)
  unfolding check_leader
  check_leader-Passes c i s reach m h =
      if_cases (Passes c) (is_leader (c.node i).role) _ _
        (λ leads. check_known-Passes c i s _ reach m leads h refl)
        (λ _. record { record_after = s; passed = refl; truthful = h })

  IsTruthful-later :
      (c d : Cluster) (s : SafetyInvariants) → Moves r members c d → IsTruthful c s → IsTruthful d s
  IsTruthful-later c d s ms h = record {
    led = λ t i e.
        let p = h.led t i e in
        record {
          member = p.member;
          before = p.before;
          reach = p.reach;
          since = Moves_trans r members p.since ms;
          leads = p.leads;
          term = p.term;
        };
  }

  check_members-Passes :
      (c : Cluster) (is : List NodeId) (s : SafetyInvariants)
      → Reach r members c
      → All (λ i. contains members i ≡ true) is
      → IsTruthful c s
      → Passes c (check_election_safety (map c.node is) s)
  unfolding check_election_safety
  check_members-Passes c [] s reach m h = record { record_after = s; passed = refl; truthful = h }
  check_members-Passes c (i ∷ is) s reach m h =
      let p = check_leader-Passes c i s reach m.0 h in
      let q = check_members-Passes c is p.record_after reach m.1 p.truthful in rw (p.passed) q

  -- Take a cluster that new nodes have reached by ticks, by messages in any order, by proposals and
  -- compactions and by restarts from the stored hard state, and a record of leaders that names only
  -- members that led in their terms before. The simulator's check of election safety on any of the
  -- members at any later time passes, and leaves a record of the same kind.
  pub check_election_safety_lem :
      (c d : Cluster) (is : List NodeId) (s : SafetyInvariants)
      → Reach r members c
      → Moves r members c d
      → All (λ i. contains members i ≡ true) is
      → IsTruthful c s
      → Passes d (check_election_safety (map d.node is) s)
  check_election_safety_lem c d is s reach ms m h =
      check_members-Passes d is s (Moves-Reach r members reach ms) m (IsTruthful-later c d s ms h)
