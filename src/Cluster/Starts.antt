-- ===== src/Cluster/Starts.antt =====
-- Starts, restarts and compactions in a cluster of nodes of raft-core/src/node.rs, and the entries of
-- its leaders.
use raft_rupee.Base.{
  map-eq-some, ◌+◌, ◌≤◌, ◌<◌, ◌≡◌, refl, sym, ap, ◌∙◌, inl, inr, List, [], ◌∷◌, Option, none, some,
  true, false, arith, u64_mod, ◌==◌, ==_iff, Bool-cases, subst, All, if_cases, ltb,
}
use raft_rupee.Types.{Term, LogIndex, NodeId}
use raft_rupee.Message.{Message, Bytes, MessageKind}
use raft_rupee.Log
use raft_rupee.Log.{RaftLog, last_index, last_term, entry_at, term_at}
use raft_rupee.Log.Bounds.{IsLog}
use raft_rupee.Log.Edits.{compact_lem}
use raft_rupee.Node.State.{
  RaftNode, Rng, Action, Outcome, Role, Config, new, restore, is_leader, is_candidate,
}
use raft_rupee.Node.Snapshot.{compact_logs}
use raft_rupee.Node.Step.{is_client_msg}
use raft_rupee.Election.Tally.{campaigns}
use raft_rupee.Cluster.System.{Cluster, update, Sent, Move, here, next, Starts}
use raft_rupee.Cluster.Safety.{Mandate-Moves}
use raft_rupee.Cluster.Ledgers.{Ruled}
use raft_rupee.Ledger.Chain.{Ledger, LogChain}
use raft_rupee.Ledger.Lawful.{enters, LinkedKind, LinkedAction}

pub Sent-LinkedKind :
    (k : Ledger) (m : Message) (xs : List Action)
    → Sent m xs
    → All (LinkedAction k) xs
    → LinkedKind k m.kind
Sent-LinkedKind k m [] h s = absurd h
Sent-LinkedKind k m (a ∷ xs) (inl e) s = subst (LinkedAction k) e s.0
Sent-LinkedKind k m (a ∷ xs) (inr h) s = Sent-LinkedKind k m xs h s.1

pub client-LinkedKind :
    (k : Ledger) (kind : MessageKind) → is_client_msg kind ≡ true → LinkedKind k kind
client-LinkedKind k (MessageKind.client_request _) h = tt
client-LinkedKind k (MessageKind.client_response _ _) h = tt
client-LinkedKind k _ h = absurd (ground arith)

pub compact_logs-enters :
    (n : RaftNode) (i : LogIndex) (t : Term) (payload : Bytes)
    → enters (compact_logs n i t payload).1 ≡ []
unfolding compact_logs
compact_logs-enters n i t payload =
    if_cases {A = Outcome} (λ o. enters o.1 ≡ []) (ltb n.commit_index i) _ _ (λ _. refl) (λ _. refl)

pub compact_logs-last_index :
    (n : RaftNode) (i : LogIndex) (t : Term) (payload : Bytes)
    → IsLog n.log
    → i + 1 < u64_mod
    → last_index n.log ≤ last_index (compact_logs n i t payload).0.log
unfolding compact_logs
compact_logs-last_index n i t payload v fits =
    if_cases {A = Outcome} (λ o. last_index n.log ≤ last_index o.0.log) (ltb n.commit_index i) _ _
      (λ _. omega arith) (λ _. omega (arith, (compact_lem i t 0 v fits).0))

idle-roles : (r : Role) → campaigns r ≡ false → (is_leader r ≡ false) × (is_candidate r ≡ false)
idle-roles Role.follower h = (refl, refl)
idle-roles Role.pre_candidate h = (refl, refl)
idle-roles _ h = absurd (ground arith)

pub new-log : (r : Rng) (cfg : Config) (n : RaftNode) → new r cfg ≡ some n → n.log ≡ Log.new
unfolding new
new-log r cfg n h = ground arith

pub restore-log :
    (r : Rng) (cfg : Config) (t : Term) (vote : Option NodeId) (log : RaftLog) (c a : LogIndex)
    (n : RaftNode)
    → restore r cfg t vote log c a ≡ some n
    → n.log ≡ log
unfolding restore
restore-log r cfg t vote log c a n h =
    let (m, _, f) = map-eq-some _ (new r cfg) h in sym (ap (λ (n : RaftNode). n.log) f)

module _ (r : Rng) (members : List NodeId) where
  pub restart-Ruled :
      (k : Ledger) (c : Cluster) (i : NodeId) (n : RaftNode)
      → Ruled r members k c
      → Move r members c (record c { node = update c.node i n })
      → (campaigns n.role ≡ false) × (n.current_term ≡ (c.node i).current_term)
      → n.log ≡ (c.node i).log
      → Ruled r members k (record c { node = update c.node i n })
  restart-Ruled k c i n u move (idle, term) log = record {
    logs = λ j there. elim (Bool-cases (i == j)) [
      | inr other ↦ rw other (u.logs j there)
      | inl same ↦
          let e : i ≡ j = (==_iff i j).0 same in
          let l : LogChain k n.log =
            subst (λ (l : RaftLog). LogChain k l) (ap (λ a. (c.node a).log) (sym e) ∙ sym log)
              (u.logs j there).0 in
          rw same (l, (u.logs j there).1)
    ];
    reigns = λ j there. elim (Bool-cases (i == j)) [
      | inr other ↦ rw other (u.reigns j there)
      | inl same ↦ let silent = (idle-roles n.role idle).0 in rw same (λ l. absurd (ground arith))
    ];
    origin = λ t x y h.
        let b = u.origin t x y h in
        let stays = Mandate-Moves r members b.by t (next here move) b.mandate in
        elim (Bool-cases (i == b.by)) [
          | inr other ↦ record {
            by = b.by;
            known = b.known;
            mandate = stays;
            reached = rw other (b.reached);
            once = rw other (b.once);
          }
          | inl same ↦
              let e : b.by ≡ i = sym ((==_iff i b.by).0 same) in
              let before : (c.node b.by).current_term ≡ n.current_term =
                ap (λ j. (c.node j).current_term) e ∙ sym term in
              record {
                by = b.by;
                known = b.known;
                mandate = stays;
                reached = rw same (omega (arith, b.reached, before));
                once = rw same (λ _. (idle-roles n.role idle).1);
              }
        ];
  }

  pub Starts-Ruled : {c : Cluster} → Starts r members c → Ruled r members (λ t i. none) c
  Starts-Ruled {c} s = record {
    logs = λ i known.
        let (cfg, e, _, _) = s.fresh i known in
        (
          subst (LogChain (λ t i. none)) (sym (new-log r cfg (c.node i) e)) (unfold Log.new in tt),
          rw (s.silent i) tt,
        );
    reigns = λ i known l x y h. cc;
    origin = λ t x y h. cc;
  }
