-- ===== src/Examples/Setup.antt =====
-- A deterministic generator, three configured nodes, and runs of their cluster by a list of events.
use mathlib.Core.Logic.{dite}
use mathlib.Core.Option
use raft_rupee.Base.{
  ℕ, zero, suc, ◌+◌, ◌≡◌, inl, inr, refl, List, [], ◌∷◌, Option, none, some, Bool-cases,
  Option-cases, contains, ◌==◌, ==_iff, dec_lt, length, u64_mod, arith, if◌then◌else◌, add64, sub64,
  set_insert,
}
use mathlib.Core.List.{foldl}
use raft_rupee.Types.{NodeId, next, next_term, prev}
use raft_rupee.Log
use raft_rupee.Message.{Message}
use raft_rupee.Node.State.{
  Role, Config, RaftNode, Rng, Action, new, restore, randomize_election_timeout, ◌▷◌,
}
use raft_rupee.Node.Replicate
use raft_rupee.Node.Commit
use raft_rupee.Node.Election
use raft_rupee.Node.Entries
use raft_rupee.Node.Snapshot
use raft_rupee.Node.Step
use raft_rupee.Node.Step.{step}
use raft_rupee.Cluster.System.{Cluster, Sent, tick, deliver, Reach, start, later, Starts}

-- Everything that a run calls.
unfoldable pub program : Unit {0}
unfolding Bool-cases Option-cases add64 sub64 contains set_insert next next_term prev dec_lt Log.new
    Log.restore Log.last_index Log.last_term Log.first_index Log.entry_at Log.term_at Log.append
    Log.truncate_and_append Log.entries_from Log.snapshot_meta Log.compact Log.install_snapshot new
    restore randomize_election_timeout ◌▷◌ Replicate.replicate_to_peer
    Replicate.broadcast_heartbeats Replicate.broadcast_append_entries Commit.count_matching
    Commit.is_committable Commit.scan_commit Commit.take_committed Commit.apply_entries
    Commit.apply_committed_entries Commit.commit_to Commit.maybe_advance_commit_index
    Election.is_log_up_to_date Election.insert_all Election.become_leader
    Election.leader_lease_active Election.handle_pre_vote Election.can_vote
    Election.handle_request_vote Election.handle_request_vote_response Election.become_follower
    Election.campaign Election.start_real_election Election.canvass Election.start_pre_vote
    Election.handle_pre_vote_response Entries.conflict_start Entries.attach_index
    Entries.store_entries Entries.follow_commit Entries.check_previous Entries.handle_append_entries
    Entries.last_of_term Entries.backtrack Entries.handle_append_entries_response
    Snapshot.compact_logs Snapshot.take_snapshot Snapshot.handle_install_snapshot
    Snapshot.handle_install_snapshot_response Step.add_entry Step.propose Step.handle_client_request
    Step.tick Step.dispatch Step.meet_term Step.step
program = tt

-- Draws the lowest number of each range.
abbrev pub low_rng : Rng
low_rng = record { seed_from_u64 = λ s. s; gen_range = λ lo hi g. (lo, g) }

abbrev pub members : List NodeId
members = 1 ∷ 2 ∷ 3 ∷ []

abbrev others : NodeId → List NodeId
others i = if i == 1 then 2 ∷ 3 ∷ [] else if i == 2 then 1 ∷ 3 ∷ [] else 1 ∷ 2 ∷ []

abbrev pub config : NodeId → Config
config i = record {
  id = i;
  peers = others i;
  election_timeout_ticks = 2;
  heartbeat_interval_ticks = 1;
  rng_seed = 7;
}

abbrev idle : RaftNode
idle = record {
  id = 0;
  peers = [];
  current_term = 0;
  voted_for = none;
  log = record { sentinel = Log.base_entry 0 0; rest = [] };
  commit_index = 0;
  last_applied = 0;
  role = Role.follower;
  next_index = λ _. none;
  match_index = λ _. none;
  election_timeout_base = 2;
  election_timeout = 2;
  election_elapsed = 0;
  heartbeat_interval = 1;
  heartbeat_elapsed = 0;
  votes_received = [];
  pre_votes_received = [];
  rng = 7;
  leader_id = none;
}

-- Node `i` as `RaftNode::new` makes it from its configuration.
abbrev pub fresh_node : NodeId → RaftNode
fresh_node i = record idle { id = i; peers = others i }

abbrev pub fresh_cluster : Cluster
fresh_cluster = record { node = fresh_node; sent = λ _. [] }

pub new-fresh_node : (i : NodeId) → new low_rng (config i) ≡ some (fresh_node i)
unfolding program
new-fresh_node i = refl

others-length : (i : NodeId) → length (others i) + 1 ≡ length members
others-length i = ground arith

pub fresh_cluster-Starts : Starts low_rng members fresh_cluster
fresh_cluster-Starts = record {
  fresh = λ i m. (config i, new-fresh_node i, refl, others-length i);
  silent = λ i. refl;
}

pub data Event : Type 0 where
  clock : (i : NodeId) → Event
  -- The `k`-th message that node `j` has sent goes to node `i`.
  mail : (i j : NodeId) (k : ℕ) → Event

-- The `k`-th message among the actions.
pick : ℕ → (xs : List Action) → Option ((m : Message) × Sent m xs)
pick k [] = none
pick zero (Action.send m ∷ xs) = some (m, inl refl)
pick (suc k) (Action.send m ∷ xs) = Option.map (λ p. (p.0, inr p.1)) (pick k xs)
pick k (a ∷ xs) = Option.map (λ p. (p.0, inr p.1)) (pick k xs)

pub record Run : Type 0 where
  pub last : Cluster
  pub reach : Reach low_rng members last

-- An event that cannot happen changes nothing.
turn : Run → Event → Run
unfolding pick program
turn run (clock i) = elim (Bool-cases (contains members i)) [
  | inr _ ↦ run
  | inl m ↦
      dite (dec_lt ((run.last.node i).current_term + 1) u64_mod)
        (λ room. record { last = _; reach = later run.reach (tick i m room) }) (λ _. run)
]
turn run (mail i j k) = elim (Bool-cases (contains members i)) [
  | inr _ ↦ run
  | inl mi ↦ elim (Bool-cases (contains members j)) [
    | inr _ ↦ run
    | inl mj ↦ elim (pick k (run.last.sent j)) [
      | none ↦ run
      | some (msg, sent) ↦ elim (Bool-cases (msg.to == i)) [
        | inr _ ↦ run
        | inl to ↦ elim (Option-cases (step low_rng (run.last.node i) msg)) [
          | inl _ ↦ run
          | inr (o, e) ↦
              dite (dec_lt ((run.last.node i).current_term + 1) u64_mod)
                (λ room. record {
                  last = _;
                  reach =
                      later run.reach (deliver i j msg mi mj sent ((==_iff msg.to i).0 to) room e);
                })
                (λ _. run)
        ]
      ]
    ]
  ]
]

unfoldable pub run : List Event → Run
unfolding turn
run = foldl turn (record { last = fresh_cluster; reach = start fresh_cluster-Starts })
