-- ===== src/Sim/Disk.antt =====
-- raft-sim/src/storage.rs: `StableDisk`, and the part of `process_actions` of
-- raft-sim/src/simulator.rs that writes to it. `none` is a panic.
use mathlib.Core.Option
use raft_rupee.Base.{
  ◌-◌, List, [], ◌∷◌, ◌++◌, Option, none, some, length, get_elem?, take, drop, ltb, leb, ◌==◌,
  opt_eq, if◌then◌else◌, unwrap_or,
}
use raft_rupee.Types.{Term, LogIndex, NodeId, zero_term, sentinel_index}
use raft_rupee.Message.{Bytes, LogEntry, SnapshotMeta}
use raft_rupee.Log.{base_entry}
use raft_rupee.Log
use raft_rupee.Node.Replicate.{no_snapshot}
use raft_rupee.Node.State.{Action, Rng, Config, RaftNode, restore}

pub record StableDisk : Type 0 where
  pub node_id : NodeId
  pub current_term : Term
  pub voted_for : Option NodeId
  pub log_entries : List LogEntry
  pub snapshot : Option (SnapshotMeta × Bytes)

-- `StableDisk::new`
unfoldable pub new : NodeId → StableDisk
new node_id = record {
  node_id = node_id;
  current_term = zero_term;
  voted_for = none;
  log_entries = base_entry sentinel_index zero_term ∷ [];
  snapshot = none;
}

unfoldable pub write_hard_state : StableDisk → Term → Option NodeId → StableDisk
write_hard_state d term voted_for = record d { current_term = term; voted_for = voted_for }

-- The body of the loop of `append_entries`. An entry of the same term at the same index stays.
unfoldable pub write_entry : List LogEntry → LogEntry → Option (List LogEntry)
write_entry [] e = none
write_entry (base ∷ rest) e =
    let log = base ∷ rest in
    let offset = e.index - base.index in
    if ltb e.index base.index
    then some log
    else if ltb offset (length log)
    then (if opt_eq (Option.map (λ x. x.term) (get_elem? log offset)) (some e.term)
        then some log
        else some (take offset log ++ e ∷ []))
    else if offset == length log
    then some (log ++ e ∷ [])
    else none

unfoldable pub write_entries : List LogEntry → List LogEntry → Option (List LogEntry)
write_entries log [] = some log
write_entries log (e ∷ es) = elim (write_entry log e) [
  | none ↦ none
  | some written ↦ write_entries written es
]

unfoldable pub append_entries : StableDisk → List LogEntry → Option StableDisk
append_entries d es =
    Option.map (λ log. record d { log_entries = log }) (write_entries d.log_entries es)

-- What is left after the truncation.
unfoldable pub cut : List LogEntry → LogIndex → Option (List LogEntry)
cut [] from_index = none
cut (base ∷ rest) from_index =
    if ltb from_index base.index then none else some (take (from_index - base.index) (base ∷ rest))

unfoldable pub truncate_and_append : StableDisk → LogIndex → List LogEntry → Option StableDisk
truncate_and_append d from_index es = elim (cut d.log_entries from_index) [
  | none ↦ none
  | some log ↦ append_entries (record d { log_entries = log }) es
]

-- The entries that `write_snapshot` leaves.
unfoldable pub compact_entries : List LogEntry → SnapshotMeta → Option (List LogEntry)
compact_entries [] m = none
compact_entries (base ∷ rest) m =
    let offset = m.last_included_index - base.index in
    let sentinel = base_entry m.last_included_index m.last_included_term in
    if ltb base.index m.last_included_index
    then (if leb (length (base ∷ rest)) offset
        then some (sentinel ∷ [])
        else some (sentinel ∷ drop offset rest))
    else some (base ∷ rest)

unfoldable pub write_snapshot : StableDisk → SnapshotMeta → Bytes → Option StableDisk
write_snapshot d m payload =
    Option.map (λ log. record d { snapshot = some (m, payload); log_entries = log })
      (compact_entries d.log_entries m)

-- What the driver does with an action of the node whose disk it is.
unfoldable pub persist : StableDisk → Action → Option StableDisk
persist d (Action.send _) = some d
persist d (Action.append_entries es) = append_entries d es
persist d (Action.truncate_and_append from_index es) = truncate_and_append d from_index es
persist d (Action.persist_hard_state term voted_for) = some (write_hard_state d term voted_for)
persist d (Action.apply _) = some d
persist d (Action.persist_snapshot index term payload) =
    write_snapshot d (record { last_included_index = index; last_included_term = term }) payload

unfoldable pub process_actions : StableDisk → List Action → Option StableDisk
process_actions d [] = some d
process_actions d (a ∷ rest) = elim (persist d a) [
  | none ↦ none
  | some written ↦ process_actions written rest
]

-- `Simulator::spawn_node`, from the configuration and the disk of the node.
unfoldable pub spawn_node : Rng → Config → StableDisk → Option RaftNode
spawn_node r config d =
    let meta =
      unwrap_or (Option.map {A = SnapshotMeta × Bytes} (λ s. s.0) d.snapshot) no_snapshot in
    elim d.log_entries [
      | [] ↦ none
      | base ∷ rest ↦
          restore r config d.current_term d.voted_for (Log.restore meta rest)
            meta.last_included_index meta.last_included_index
    ]
