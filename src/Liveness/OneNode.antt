-- ===== src/Liveness/OneNode.antt =====
-- A cluster of one node of raft-core/src/node.rs, from its election timer to a commit.
use raft_rupee.Base.{
  ℕ, ◌<◌, false, subst, u64_mod, ◌+◌, ◌≤◌, ◌≡◌, ◌∙◌, refl, [], ◌∷◌, some, true, arith, ltb, ap,
}
use raft_rupee.Types.{next, next_term, next_of_lt, next_term_of_lt}
use raft_rupee.Message.{Bytes, LogEntry}
use raft_rupee.Log.{append, entry_at, last_index}
use raft_rupee.Node.State.{RaftNode, Rng, Role, ◌▷◌, is_leader}
use raft_rupee.Node.Election.{
  is_alone, start_pre_vote, canvass, start_real_election, campaign, become_leader,
}
use raft_rupee.Node.Step.{propose}
use raft_rupee.Log.Bounds.{IsLog}
use raft_rupee.Election.Kept.{propose-Keeps}
use raft_rupee.Ledger.Elections.{append_one-last_index}
use raft_rupee.Liveness.Timer.{ticks, ticks_lem}
use raft_rupee.Progress.Sound.{IsSound}
use raft_rupee.Progress.Elections.{append_one-IsLog}
use raft_rupee.Liveness.Alone.{proposal, propose_alone}

module _ (r : Rng) where
  -- A pre-vote of a node without peers goes through to the office of a leader.
  record Elected (n m : RaftNode) : Type 0 where
    leads : m.role ≡ Role.leader
    term : m.current_term ≡ next_term n.current_term
    peers : m.peers ≡ n.peers
    commit : m.commit_index ≡ n.commit_index
    applied : m.last_applied ≡ n.last_applied
    log :
        m.log
        ≡ append n.log (
            record {
              index = next (last_index n.log);
              term = next_term n.current_term;
              command = [];
            }
            ∷ [])

  start_pre_vote-Elected : (n : RaftNode) → n.peers ≡ [] → Elected n (start_pre_vote r n).0
  unfolding start_pre_vote canvass start_real_election campaign become_leader ◌▷◌
  start_pre_vote-Elected n none =
      let a : is_alone n ≡ true = rw none refl in
      rw a (record {
        leads = refl;
        term = refl;
        peers = refl;
        commit = refl;
        applied = refl;
        log = refl;
      })

  Elected-propose :
      (n m : RaftNode) (command : Bytes)
      → n.peers ≡ []
      → IsSound n
      → n.commit_index ≤ last_index n.log
      → n.current_term + 1 < u64_mod
      → last_index n.log + 3 < u64_mod
      → Elected n m
      → let o = (propose m command).0 in
        (o.role ≡ Role.leader)
        × (o.current_term ≡ n.current_term + 1)
        × (o.commit_index ≡ last_index n.log + 2)
        × (entry_at o.log (last_index n.log + 2)
            ≡ some (record {
              index = last_index n.log + 2;
              term = n.current_term + 1;
              command = command;
            }))
  Elected-propose n m command none s hi terms room e =
      let noop : LogEntry = record {
        index = next (last_index n.log);
        term = next_term n.current_term;
        command = [];
      } in
      let one : next (last_index n.log) ≡ last_index n.log + 1 =
        next_of_lt (last_index n.log) (omega (arith, room)) in
      let log' : IsLog m.log =
        rw (e.log) (append_one-IsLog noop s.log (omega (arith, room)) refl) in
      let last : last_index m.log ≡ last_index n.log + 1 =
        ap last_index e.log ∙ append_one-last_index n.log noop ∙ one in
      let sound : IsSound m = record {
        log = log';
        applied = omega (arith, e.applied, e.commit, s.applied);
        fits = omega (arith, e.commit, s.fits);
      } in
      let alone : is_alone m ≡ true = rw (e.peers, none) refl in
      let leads : is_leader m.role ≡ true = rw (e.leads) refl in
      let (committed, there) =
        propose_alone m command alone leads sound (omega (arith, last, room))
          (omega (arith, last, e.commit, hi)) in
      let keeps = propose-Keeps m command in
      let term : m.current_term ≡ n.current_term + 1 =
        e.term ∙ next_term_of_lt n.current_term terms in
      let two : last_index m.log + 1 ≡ last_index n.log + 2 = omega (arith, last) in
      let index : next (last_index m.log) ≡ last_index n.log + 2 =
        next_of_lt (last_index m.log) (omega (arith, last, room)) ∙ two in
      let entry : LogEntry = record {
        index = last_index n.log + 2;
        term = n.current_term + 1;
        command = command;
      } in
      let same : proposal m command ≡ entry = rw (index, term) refl in
      (
        keeps.role ∙ e.leads,
        keeps.term ∙ term,
        committed ∙ two,
        subst (λ i. entry_at (propose m command).0.log i ≡ some (proposal m command)) two there
            ∙ ap some same,
      )

  -- A cluster of one node makes progress. Take a sound node without peers that does not lead, whose
  -- count of ticks is below its election timeout, a u64, with its commit index within its log, and
  -- room for another term and three more entries. Once the clock has ticked up to the timeout, it
  -- leads in the next term, and a proposal is committed at once: it stands under that term in the
  -- second slot behind the log that the node had, which is the new commit index.
  pub ticks-propose_alone :
      (k : ℕ) (n : RaftNode) (command : Bytes)
      → n.peers ≡ []
      → is_leader n.role ≡ false
      → n.election_timeout < u64_mod
      → n.election_elapsed < n.election_timeout
      → n.election_elapsed + k ≡ n.election_timeout
      → IsSound n
      → n.commit_index ≤ last_index n.log
      → n.current_term + 1 < u64_mod
      → last_index n.log + 3 < u64_mod
      → let o = (propose (ticks r k n).0 command).0 in
        (o.role ≡ Role.leader)
        × (o.current_term ≡ n.current_term + 1)
        × (o.commit_index ≡ last_index n.log + 2)
        × (entry_at o.log (last_index n.log + 2)
            ≡ some (record {
              index = last_index n.log + 2;
              term = n.current_term + 1;
              command = command;
            }))
  ticks-propose_alone k n command none follows fits below at s hi terms room =
      let ready : RaftNode = record n { election_elapsed = 0 } in
      let up : ltb (n.election_elapsed + k) n.election_timeout ≡ false = ground (arith, at) in
      let ticked : ticks r k n ≡ start_pre_vote r ready =
        rw up at (ticks_lem r k n follows fits below (omega (arith, at))) in
      let elected = start_pre_vote-Elected ready none in
      let same : IsSound ready = record { log = s.log; applied = s.applied; fits = s.fits } in
      rw ticked
        (Elected-propose ready (start_pre_vote r ready).0 command none same hi terms room elected)
