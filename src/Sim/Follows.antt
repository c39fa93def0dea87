-- ===== src/Sim/Follows.antt =====
-- A disk of raft-sim/src/storage.rs that holds the state that its node has to keep, through the moves
-- of the node and a restart of it by raft-sim/src/simulator.rs.
use mathlib.Core.Option
use raft_rupee.Base.{
  ◌≡◌, ◌∙◌, sym, ap, inl, inr, List, [], ◌∷◌, some, arith, map-eq-some, some_inj, Option-cases,
  unwrap_or,
}
use raft_rupee.Types.{LogIndex}
use raft_rupee.Message.{LogEntry, Bytes, Message, SnapshotMeta}
use raft_rupee.Log
use raft_rupee.Log.{RaftLog, entries, base_entry}
use raft_rupee.Node.Replicate.{no_snapshot}
use raft_rupee.Node.State.{RaftNode, Rng, Config, Outcome, Action, new, restore}
use raft_rupee.Node.Step.{tick, propose, step}
use raft_rupee.Election.Evidence.{HardState, stored, store_one, hard_state}
use raft_rupee.Election.SteadyHandlers.{propose-IsSteady}
use raft_rupee.Election.Voting.{HasRoom, IsVoteSafe, IsSteady-IsVoteSafe}
use raft_rupee.Election.VoteSteps.{tick-IsVoteSafe}
use raft_rupee.Election.VoteEvents.{step-IsVoteSafe}
use raft_rupee.Progress.Sound.{IsSound, HasLogRoom, IsSoundKind}
use raft_rupee.Progress.Events.{step-NoPanic}
use raft_rupee.Sim.Disk.{
  StableDisk, process_actions, persist, write_hard_state, append_entries, truncate_and_append, cut,
  write_snapshot, spawn_node,
}
use raft_rupee.Sim.Tracking.{Tracks, propose-Tracks, some-not-none}
use raft_rupee.Sim.SyncSteps.{IsBeyond, tick-Tracks, step-Tracks}

abbrev pub hard_state_on : StableDisk → HardState
hard_state_on d = (d.current_term, d.voted_for)

append_entries-hard_state_on :
    (d d' : StableDisk) (es : List LogEntry)
    → append_entries d es ≡ some d'
    → hard_state_on d' ≡ hard_state_on d
unfolding append_entries
append_entries-hard_state_on d d' es h =
    let (l, _, e) = map-eq-some _ _ h in sym (ap hard_state_on e)

truncate_and_append-hard_state_on :
    (d d' : StableDisk) (i : LogIndex) (es : List LogEntry)
    → truncate_and_append d i es ≡ some d'
    → hard_state_on d' ≡ hard_state_on d
unfolding truncate_and_append
truncate_and_append-hard_state_on d d' i es h = elim (Option-cases (cut d.log_entries i)) [
  | inl failed ↦ absurd (some-not-none (sym (rw (truncate_and_append, failed) at h)))
  | inr (l, e) ↦
      append_entries-hard_state_on (record d { log_entries = l }) d' es
        (rw (truncate_and_append, e) at h)
]

pub persist-hard_state_on :
    (d d' : StableDisk) (a : Action)
    → persist d a ≡ some d'
    → hard_state_on d' ≡ store_one (hard_state_on d) a
unfolding persist write_hard_state write_snapshot
persist-hard_state_on d d' (Action.send _) h = sym (ap hard_state_on (some_inj h))
persist-hard_state_on d d' (Action.append_entries es) h = append_entries-hard_state_on d d' es h
persist-hard_state_on d d' (Action.truncate_and_append i es) h =
    truncate_and_append-hard_state_on d d' i es h
persist-hard_state_on d d' (Action.persist_hard_state _ _) h = sym (ap hard_state_on (some_inj h))
persist-hard_state_on d d' (Action.apply _) h = sym (ap hard_state_on (some_inj h))
persist-hard_state_on d d' (Action.persist_snapshot _ _ _) h =
    let (l, _, e) = map-eq-some _ _ h in sym (ap hard_state_on e)

-- The disk ends up with the hard state that the actions store.
process_actions-stored :
    (d d' : StableDisk) (xs : List Action)
    → process_actions d xs ≡ some d'
    → hard_state_on d' ≡ stored (hard_state_on d) xs
unfolding process_actions stored
process_actions-stored d d' [] h = sym (ap hard_state_on (some_inj h))
process_actions-stored d d' (a ∷ xs) h = elim (Option-cases (persist d a)) [
  | inl failed ↦ absurd (some-not-none (sym (rw (process_actions, failed) at h)))
  | inr (m, e) ↦
      let p = persist-hard_state_on d m a e in
      process_actions-stored m d' xs (rw (process_actions, e) at h)
      ∙ ap (λ (s : HardState). stored s xs) p
]

-- The disk holds the log, the term and the vote of the node.
pub record Follows (d : StableDisk) (n : RaftNode) : Type 0 where
  pub log : d.log_entries ≡ entries n.log
  pub term : d.current_term ≡ n.current_term
  pub vote : d.voted_for ≡ n.voted_for

-- The disk carries out all actions of the move without a panic, and follows the node again.
pub record Carries (d : StableDisk) (o : Outcome) : Type 0 where
  pub disk : StableDisk
  pub written : process_actions d o.1 ≡ some disk
  pub follows : Follows disk o.0

Carries-move :
    (d : StableDisk) (n : RaftNode) (o : Outcome)
    → Follows d n
    → Tracks n o
    → IsVoteSafe n o
    → Carries d o
Carries-move d n o f t v =
    let w = t.follow d f.log in
    let s = process_actions-stored d w.disk o.1 w.written in
    let before : hard_state_on d ≡ hard_state n = ground (arith, f.term, f.vote) in
    let after : hard_state_on w.disk ≡ hard_state o.0 =
      s ∙ ap (λ (k : HardState). stored k o.1) before ∙ v.saved in
    record {
      disk = w.disk;
      written = w.written;
      follows = record {
        log = w.holds;
        term = ap (λ (k : HardState). k.0) after;
        vote = ap (λ (k : HardState). k.1) after;
      };
    }

module _ (r : Rng) where
  -- Take a disk that follows a sound node with room for one more entry and one more term. The node
  -- returns from any message with sound contents, a snapshot being beyond its log; the disk carries
  -- out all that it asks for without a panic, and holds the node's new log, term and vote.
  pub step-Carries :
      (d : StableDisk) (n : RaftNode) (msg : Message)
      → Follows d n
      → IsSound n
      → HasLogRoom n
      → HasRoom n
      → IsSoundKind msg.kind
      → IsBeyond n.log msg.kind
      → (o : Outcome) × (step r n msg ≡ some o) × Carries d o
  step-Carries d n msg f s room terms k b =
      let (o, e, _) = step-NoPanic r n msg s room k in
      (
        o,
        e,
        Carries-move d n o f (step-Tracks r n msg s.log room k b e)
            (step-IsVoteSafe r n msg terms e),
      )

  -- A disk that follows a sound node with room for one more entry and one more term carries out all
  -- that the node asks for at a tick without a panic, and follows the node again.
  pub tick-Carries :
      (d : StableDisk) (n : RaftNode)
      → Follows d n
      → IsSound n
      → HasLogRoom n
      → HasRoom n
      → Carries d (tick r n)
  tick-Carries d n f s room terms =
      Carries-move d n (tick r n) f (tick-Tracks r n s.log room) (tick-IsVoteSafe r n terms)

  -- A node that crashes and is spawned again from a disk that follows it has the log, the term and
  -- the vote that it had, where the base of the log is the snapshot on the disk, or the sentinel of a
  -- new log where there is none.
  pub spawn_node_lem :
      (config : Config) (d : StableDisk) (n m : RaftNode)
      → Follows d n
      → let meta =
          unwrap_or (Option.map {A = SnapshotMeta × Bytes} (λ s. s.0) d.snapshot) no_snapshot in
        n.log.sentinel ≡ base_entry meta.last_included_index meta.last_included_term
        → spawn_node r config d ≡ some m
        → (m.log ≡ n.log) × (m.current_term ≡ n.current_term) × (m.voted_for ≡ n.voted_for)
  unfolding spawn_node restore Log.restore
  spawn_node_lem config d n m f base h =
      let (k, _, e) = map-eq-some _ (new r config) (rw f.log at h) in
      let with_base : LogEntry → RaftLog = λ b. record { sentinel = b; rest = n.log.rest } in
      (
        sym (ap (λ (q : RaftNode). q.log) e) ∙ ap with_base (sym base),
        sym (ap (λ (q : RaftNode). q.current_term) e) ∙ f.term,
        sym (ap (λ (q : RaftNode). q.voted_for) e) ∙ f.vote,
      )

-- A disk that follows a sound node with room for one more entry carries out all that the node asks
-- for when a command is proposed without a panic, and follows the node again.
pub propose-Carries :
    (d : StableDisk) (n : RaftNode) (command : Bytes)
    → Follows d n
    → IsSound n
    → HasLogRoom n
    → Carries d (propose n command)
propose-Carries d n command f s room =
    Carries-move d n (propose n command) f (propose-Tracks n command s.log room)
      (IsSteady-IsVoteSafe (propose-IsSteady n command))
