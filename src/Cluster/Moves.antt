-- ===== src/Cluster/Moves.antt =====
-- The moves of a cluster of nodes of raft-core/src/node.rs, and its invariant.
use raft_rupee.Base.{
  ◌≡◌, refl, ap, ◌∙◌, inl, inr, List, [], ◌∷◌, Option, none, some, true, false, arith, length,
  contains, ◌==◌, ==_iff, ==_refl, Bool-cases, subst, All, map-eq-some,
}
use raft_rupee.Types.{Term, LogIndex, NodeId, zero_term}
use raft_rupee.Message.{Message, MessageKind}
use raft_rupee.Log.{RaftLog}
use raft_rupee.Node.State.{Config, RaftNode, Rng, Action, new, restore}
use raft_rupee.Node.Step.{is_client_msg}
use raft_rupee.Election.Evidence.{HasVote, IsFrom, stored, is_grant, vote_in, HardState}
use raft_rupee.Election.SteadyHandlers.{propose-IsSteady, compact_logs-IsSteady}
use raft_rupee.Election.Voting.{IsSteady-IsVoteSafe}
use raft_rupee.Election.VoteSteps.{tick-IsVoteSafe}
use raft_rupee.Election.VoteEvents.{step-IsVoteSafe}
use raft_rupee.Election.Tally.{IsElected, Keeps-Tallies, idle-IsElected, campaigns}
use raft_rupee.Election.TallySteps.{tick-Tallies}
use raft_rupee.Election.Kept.{propose-Keeps, compact_logs-Keeps}
use raft_rupee.Election.Count.{step-Tallies}
use raft_rupee.Cluster.System.{
  Cluster, update, Sent, Move, tick, deliver, request, propose, compact, restart, Starts, Reach,
  start, later,
}
use raft_rupee.Cluster.Invariant.{
  Support, IsMember, VotesFor, Invariant, after-Invariant, VotesFor-after,
}

sent-from :
    (msg : Message) (i : NodeId) (xs : List Action) → Sent msg xs → All (IsFrom i) xs → msg.from ≡ i
sent-from msg i [] s f = absurd s
sent-from msg i (a ∷ xs) (inl e) f = subst (IsFrom i) e f.0
sent-from msg i (a ∷ xs) (inr s) f = sent-from msg i xs s f.1

sent-HasVote :
    (msg : Message) (xs : List Action)
    → Sent msg xs
    → is_grant msg.kind ≡ true
    → HasVote msg.term msg.to xs
sent-HasVote msg [] s g = absurd s
sent-HasVote msg (a ∷ xs) (inl e) g = inl (ap vote_in e ∙ rw g)
sent-HasVote msg (a ∷ xs) (inr s) g = inr (sent-HasVote msg xs s g)

client-not-grant : (kind : MessageKind) → is_client_msg kind ≡ true → is_grant kind ≡ false
client-not-grant (MessageKind.client_request _) h = refl
client-not-grant (MessageKind.client_response _ _) h = refl
client-not-grant _ h = ground arith

-- A node that was just built: it counts no votes, and has the hard state that it was given.
record IsBuilt (cfg : Config) (t : Term) (vote : Option NodeId) (n : RaftNode) : Type 0 where
  id : n.id ≡ cfg.id
  peers : n.peers ≡ cfg.peers
  term : n.current_term ≡ t
  voted : n.voted_for ≡ vote
  idle : campaigns n.role ≡ false
  none_counted : n.votes_received ≡ []

IsBuilt-IsElected :
    (P : Support) {cfg : Config} {t : Term} {vote : Option NodeId} {n : RaftNode}
    → IsBuilt cfg t vote n
    → IsElected P n
IsBuilt-IsElected P b = idle-IsElected P b.idle (rw b.none_counted tt)

same_hard_state : (s : HardState) (t : Term) (v : Option NodeId) → t ≡ s.0 → v ≡ s.1 → s ≡ (t, v)
same_hard_state s t v e f = ground arith

module _ (r : Rng) where
  new-IsBuilt : (cfg : Config) (n : RaftNode) → new r cfg ≡ some n → IsBuilt cfg zero_term none n
  unfolding new
  new-IsBuilt cfg n h = ground arith

  restore-IsBuilt :
      (cfg : Config) (t : Term) (vote : Option NodeId) (log : RaftLog) (c a : LogIndex)
      (n : RaftNode)
      → restore r cfg t vote log c a ≡ some n
      → IsBuilt cfg t vote n
  unfolding restore
  restore-IsBuilt cfg t vote log c a n h =
      let (m, e, f) = map-eq-some _ (new r cfg) h in
      let b = new-IsBuilt cfg m e in
      subst (IsBuilt cfg t vote) f (record {
        id = b.id;
        peers = b.peers;
        term = refl;
        voted = refl;
        idle = b.idle;
        none_counted = b.none_counted;
      })

  pub new-peers : (cfg : Config) (n : RaftNode) → new r cfg ≡ some n → n.peers ≡ cfg.peers
  new-peers cfg n h = (new-IsBuilt cfg n h).peers

  pub restore-idle :
      (cfg : Config) (t : Term) (vote : Option NodeId) (log : RaftLog) (c a : LogIndex)
      (n : RaftNode)
      → restore r cfg t vote log c a ≡ some n
      → (campaigns n.role ≡ false) × (n.current_term ≡ t)
  restore-idle cfg t vote log c a n h =
      let b = restore-IsBuilt cfg t vote log c a n h in (b.idle, b.term)

  pub restore-peers :
      (cfg : Config) (t : Term) (vote : Option NodeId) (log : RaftLog) (c a : LogIndex)
      (n : RaftNode)
      → restore r cfg t vote log c a ≡ some n
      → n.peers ≡ cfg.peers
  restore-peers cfg t vote log c a n h = (restore-IsBuilt cfg t vote log c a n h).peers

  module _ (members : List NodeId) where
    restart-Invariant :
        (c : Cluster) (i : NodeId) (cfg : Config) (log : RaftLog) (commit applied : LogIndex)
        (n : RaftNode)
        → contains members i ≡ true
        → cfg.id ≡ i
        → cfg.peers ≡ (c.node i).peers
        → restore r cfg
            (stored (zero_term, none) (c.sent i)).0
            (stored (zero_term, none) (c.sent i)).1
            log
            commit
            applied
          ≡ some n
        → Invariant members c
        → Invariant members (record c { node = update c.node i n })
    restart-Invariant c i cfg log commit applied n known id peers e inv j there =
        elim (Bool-cases (i == j)) [
          | inl here ↦ subst At ((==_iff i j).0 here) (rw (==_refl i) back)
          | inr other ↦ rw other (inv j there)
        ]
      where
        At : NodeId → Type 0
        At k =
            IsMember (length members) k (c.sent k) (VotesFor members c.sent k) (update c.node i n k)

        m : IsMember (length members) i (c.sent i) (VotesFor members c.sent i) (c.node i)
        m = inv i known

        b :
            IsBuilt cfg
              (stored (zero_term, none) (c.sent i)).0
              (stored (zero_term, none) (c.sent i)).1
              n
        b = restore-IsBuilt cfg _ _ log commit applied n e

        term : n.current_term ≡ (c.node i).current_term
        term = b.term ∙ ap (λ (s : HardState). s.0) m.saved

        vote : n.voted_for ≡ (c.node i).voted_for
        vote = b.voted ∙ ap (λ (s : HardState). s.1) m.saved

        back : IsMember (length members) i (c.sent i) (VotesFor members c.sent i) n
        back = record {
          id = b.id ∙ id;
          peers = rw (b.peers, peers) m.peers;
          current = λ t v h. rw (term, vote) (m.current t v h);
          unique = m.unique;
          stamped = m.stamped;
          saved = same_hard_state _ n.current_term n.voted_for b.term b.voted;
          elected = IsBuilt-IsElected _ b;
        }

    pub Move-Invariant :
        {c d : Cluster} → Move r members c d → Invariant members c → Invariant members d
    Move-Invariant {c} (tick i known room) inv =
        after-Invariant members c i _ inv known (tick-IsVoteSafe r (c.node i) room)
          (tick-Tallies _ r (c.node i))
    Move-Invariant {c} (deliver i j msg {o} known there sent to room e) inv =
        after-Invariant members c i o inv known (step-IsVoteSafe r (c.node i) msg room e) (
          step-Tallies _ r (c.node i) msg o
            (λ g. VotesFor-after members c i o i msg.term msg.from (
              rw (sent-from msg j (c.sent j) sent (inv j there).stamped)
                (rw to at (sent-HasVote msg (c.sent j) sent g), there)))
            e)
    Move-Invariant {c} (request i msg {o} known client room e) inv =
        after-Invariant members c i o inv known (step-IsVoteSafe r (c.node i) msg room e) (
          step-Tallies _ r (c.node i) msg o
            (λ g. absurd (ground (arith, client-not-grant msg.kind client))) e)
    Move-Invariant {c} (propose i command known) inv =
        after-Invariant members c i _ inv known
          (IsSteady-IsVoteSafe (propose-IsSteady (c.node i) command))
          (Keeps-Tallies _ (propose-Keeps (c.node i) command))
    Move-Invariant {c} (compact i index term payload known) inv =
        after-Invariant members c i _ inv known
          (IsSteady-IsVoteSafe (compact_logs-IsSteady (c.node i) index term payload))
          (Keeps-Tallies _ (compact_logs-Keeps (c.node i) index term payload))
    Move-Invariant {c} (restart i cfg log commit applied {n} known id peers e) inv =
        restart-Invariant c i cfg log commit applied n known id peers e inv

    Starts-Invariant : {c : Cluster} → Starts r members c → Invariant members c
    unfolding stored
    Starts-Invariant {c} s i known =
        let (cfg, e, id, size) = s.fresh i known in
        let b = new-IsBuilt cfg (c.node i) e in
        rw (s.silent i) (record {
          id = b.id ∙ id;
          peers = rw b.peers size;
          current = λ t v h. absurd h;
          unique = λ t u v h. absurd h;
          stamped = tt;
          saved = same_hard_state _ _ _ b.term b.voted;
          elected = IsBuilt-IsElected _ b;
        })

    pub Reach-Invariant : {c : Cluster} → Reach r members c → Invariant members c
    Reach-Invariant (start s) = Starts-Invariant s
    Reach-Invariant (later reach move) = Move-Invariant move (Reach-Invariant reach)
