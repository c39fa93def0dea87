-- ===== src/Sim/Network.antt =====
-- raft-sim/src/network.rs: `SimNetwork`. The BinaryHeap is the list of its messages, and the choice
-- among those of one delivery tick, which it leaves open, is a parameter. The two rates are numbers
-- that only the generator reads, as they are f64 in the source.
use raft_rupee.Base.{
  ℕ, zero, suc, ◌+◌, List, [], ◌∷◌, ◌++◌, none, some, Bool, true, false, ◌&&◌, ◌||◌, length,
  get_elem?, take, drop, leb, ◌==◌, if◌then◌else◌, add64,
}
use raft_rupee.Types.{NodeId}
use raft_rupee.Message.{Message}

-- `SmallRng` of the simulator, by its state, and the heap's choice of a greatest element.
pub record Chance : Type 0 where
  pub seed_from_u64 : ℕ → ℕ
  pub gen : ℕ → ℕ × ℕ
  pub gen_bool : (rate : ℕ) → ℕ → Bool × ℕ
  -- `gen_range(lo..=hi)`
  pub gen_range : (lo hi : ℕ) → ℕ → ℕ × ℕ
  pub rate_zero : ℕ

pub record ScheduledMessage : Type 0 where
  pub delivery_tick : ℕ
  pub msg : Message

-- The position that `BinaryHeap::peek` looks at.
abbrev pub Peek : Type 0
Peek = List ScheduledMessage → ℕ

pub record SimNetwork : Type 0 where
  pub in_flight : List ScheduledMessage
  pub partitions : List (NodeId × NodeId)
  pub drop_rate : ℕ
  pub duplicate_rate : ℕ
  pub max_delay_ticks : ℕ

-- `SimNetwork::new`
unfoldable pub new_network : Chance → SimNetwork
new_network ch = record {
  in_flight = [];
  partitions = [];
  drop_rate = ch.rate_zero;
  duplicate_rate = ch.rate_zero;
  max_delay_ticks = 3;
}

unfoldable pub is_cut : List (NodeId × NodeId) → NodeId → NodeId → Bool
is_cut [] from to = false
is_cut ((a, b) ∷ rest) from to = (a == from && b == to) || is_cut rest from to

unfoldable pub partition : NodeId → NodeId → SimNetwork → SimNetwork
partition from to net =
    if is_cut net.partitions from to
    then net
    else record net { partitions = (from, to) ∷ net.partitions }

unfoldable pub heal_all : SimNetwork → SimNetwork
heal_all net = record net { partitions = [] }

unfoldable pub push_message : ℕ → Message → SimNetwork → SimNetwork
push_message delivery_tick msg net = record net {
  in_flight = record { delivery_tick = delivery_tick; msg = msg } ∷ net.in_flight;
}

-- The delay of a message.
unfoldable pub draw_delay : Chance → SimNetwork → ℕ → ℕ × ℕ
draw_delay ch net g =
    if net.max_delay_ticks == 0 then (0, g) else ch.gen_range 0 net.max_delay_ticks g

-- The second copy, if the generator says so.
unfoldable pub duplicate : Chance → Message → ℕ → ℕ → SimNetwork × ℕ → SimNetwork × ℕ
duplicate ch msg current_tick delay (net, g) =
    let again = ch.gen_bool net.duplicate_rate g in
    let extra = ch.gen_range 1 3 again.1 in
    if again.0
    then (push_message (add64 current_tick (add64 delay extra.0)) msg net, extra.1)
    else (net, again.1)

-- `SimNetwork::send`
unfoldable pub send : Chance → Message → ℕ → SimNetwork × ℕ → SimNetwork × ℕ
send ch msg current_tick (net, g) =
    let dropped = ch.gen_bool net.drop_rate g in
    let delay = draw_delay ch net dropped.1 in
    if is_cut net.partitions msg.from msg.to
    then (net, g)
    else if dropped.0
    then (net, dropped.1)
    else duplicate ch msg current_tick delay.0
        (push_message (add64 current_tick delay.0) msg net, delay.1)

-- `pop`: the queue without the element at a position.
unfoldable pub remove_at : ℕ → List ScheduledMessage → List ScheduledMessage
remove_at i queue = take i queue ++ drop (i + 1) queue

-- The loop of `drain_due`, which takes one message in a round: what is delivered, and what is left.
unfoldable pub drain_loop :
    Peek → ℕ → ℕ → List ScheduledMessage → List Message × List ScheduledMessage
drain_loop peek zero current_tick queue = ([], queue)
drain_loop peek (suc fuel) current_tick queue = elim (get_elem? queue (peek queue)) [
  | none ↦ ([], queue)
  | some m ↦ elim (leb m.delivery_tick current_tick) [
    | false ↦ ([], queue)
    | true ↦
        let later = drain_loop peek fuel current_tick (remove_at (peek queue) queue) in
        (m.msg ∷ later.0, later.1)
  ]
]

unfoldable pub drain_due : Peek → ℕ → SimNetwork → List Message × SimNetwork
drain_due peek current_tick net =
    let drained = drain_loop peek (length net.in_flight) current_tick net.in_flight in
    (drained.0, record net { in_flight = drained.1 })
