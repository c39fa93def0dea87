-- ===== src/Node/State.antt =====
-- raft-core/src/node.rs: the node's types, its constructors, and the timeouts that it draws.
use mathlib.Core.Option
use raft_rupee.Base.{
  ℕ, List, [], ◌∷◌, ◌++◌, Option, none, some, Bool, true, false, ltb, if◌then◌else◌, add64, HashMap,
  empty_map,
}
use raft_rupee.Types.{Term, LogIndex, NodeId, zero_term, sentinel_index}
use raft_rupee.Message.{Bytes, LogEntry, Message, MessageKind}
use raft_rupee.Log
use raft_rupee.Log.{RaftLog}

pub data Role : Type 0 where
  follower pre_candidate candidate leader : Role

abbrev pub is_leader : Role → Bool
is_leader Role.leader = true
is_leader _ = false

abbrev pub is_candidate : Role → Bool
is_candidate Role.candidate = true
is_candidate _ = false

abbrev pub is_pre_candidate : Role → Bool
is_pre_candidate Role.pre_candidate = true
is_pre_candidate _ = false

-- What the node asks of its driver.
pub data Action : Type 0 where
  send : Message → Action
  append_entries : (entries : List LogEntry) → Action
  truncate_and_append : (from_index : LogIndex) (entries : List LogEntry) → Action
  persist_hard_state : (term : Term) (voted_for : Option NodeId) → Action
  apply : (entries : List LogEntry) → Action
  persist_snapshot :
      (last_included_index : LogIndex) (last_included_term : Term) (payload : Bytes) → Action

pub record Config : Type 0 where
  pub id : NodeId
  pub peers : List NodeId
  pub election_timeout_ticks : ℕ
  pub heartbeat_interval_ticks : ℕ
  pub rng_seed : ℕ

-- `rng` is the state of a SmallRng, a block of bytes, as a number.
pub record RaftNode : Type 0 where
  pub id : NodeId
  pub peers : List NodeId
  pub current_term : Term
  pub voted_for : Option NodeId
  pub log : RaftLog
  pub commit_index : LogIndex
  pub last_applied : LogIndex
  pub role : Role
  pub next_index : HashMap LogIndex
  pub match_index : HashMap LogIndex
  pub election_timeout_base : ℕ
  pub election_timeout : ℕ
  pub election_elapsed : ℕ
  pub heartbeat_interval : ℕ
  pub heartbeat_elapsed : ℕ
  pub votes_received : List NodeId
  pub pre_votes_received : List NodeId
  pub rng : ℕ
  pub leader_id : Option NodeId

-- The crate `rand`: `SmallRng::seed_from_u64` and `gen_range(low..high)`, which takes the
-- generator's state and returns the number drawn and the next state.
pub record Rng : Type 0 where
  pub seed_from_u64 : ℕ → ℕ
  pub gen_range : ℕ → ℕ → ℕ → ℕ × ℕ

-- The number drawn, and the generator afterwards.
unfoldable pub randomize_election_timeout : Rng → ℕ → ℕ → ℕ × ℕ
randomize_election_timeout r base g = let d = r.gen_range 0 base g in (add64 base d.0, d.1)

-- A method that pushes actions returns them beside the new state.
abbrev pub Outcome : Type 0
Outcome = RaftNode × List Action

abbrev pub done : RaftNode → Outcome
done n = (n, [])

abbrev pub push : RaftNode → Action → Outcome
push n a = (n, a ∷ [])

-- One call after another, on the same `actions`.
infixl 5 ◌▷◌
unfoldable pub ◌▷◌ : Outcome → (RaftNode → Outcome) → Outcome
o ▷ f = let r = f o.0 in (r.0, o.1 ++ r.1)

-- A message of this node, in its current term.
abbrev pub reply : RaftNode → NodeId → MessageKind → Action
reply n to kind = Action.send (record { from = n.id; to = to; term = n.current_term; kind = kind })

-- `none` is the failed `assert` on the two timeouts.
unfoldable pub new : Rng → Config → Option RaftNode
new r c =
    let g = r.seed_from_u64 c.rng_seed in
    let t = randomize_election_timeout r c.election_timeout_ticks g in
    if ltb c.heartbeat_interval_ticks c.election_timeout_ticks
    then some (record {
      id = c.id;
      peers = c.peers;
      current_term = zero_term;
      voted_for = none;
      log = Log.new;
      commit_index = sentinel_index;
      last_applied = sentinel_index;
      role = Role.follower;
      next_index = empty_map;
      match_index = empty_map;
      election_timeout_base = c.election_timeout_ticks;
      election_timeout = t.0;
      election_elapsed = 0;
      heartbeat_interval = c.heartbeat_interval_ticks;
      heartbeat_elapsed = 0;
      votes_received = [];
      pre_votes_received = [];
      rng = t.1;
      leader_id = none;
    })
    else none

unfoldable pub restore :
    Rng → Config → Term → Option NodeId → RaftLog → LogIndex → LogIndex → Option RaftNode
restore r c term vote log commit applied =
    Option.map {A = RaftNode}
      (λ n. record n {
        current_term = term;
        voted_for = vote;
        log = log;
        commit_index = commit;
        last_applied = applied;
      })
      (new r c)
