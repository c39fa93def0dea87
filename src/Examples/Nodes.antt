-- ===== src/Examples/Nodes.antt =====
-- The theorems on the entry points of raft-core/src/node.rs at concrete nodes.
use raft_rupee.Base.{refl, [], ◌∷◌, arith, inr, unwrap_or}
use raft_rupee.Message.{Message, MessageKind}
use raft_rupee.Log.{base_entry}
use raft_rupee.Node.State.{RaftNode, Role}
use raft_rupee.Node.Step.{step, tick, propose}
use raft_rupee.Progress.Sound.{IsSound, Progresses}
use raft_rupee.Progress.Entries.{NoPanic}
use raft_rupee.Progress.Steps.{propose-Progresses}
use raft_rupee.Progress.Events.{step-NoPanic, tick-Progresses}
use raft_rupee.Replication.Leader.{Grows}
use raft_rupee.Replication.AppendOnly.{step-Grows}
use raft_rupee.Examples.Setup.{program, fresh_node, low_rng}

-- A leader of term 2 with two entries.
abbrev pub leading : RaftNode
leading = record (fresh_node 1) {
  current_term = 2;
  log = record { sentinel = base_entry 0 0; rest = base_entry 1 1 ∷ base_entry 2 2 ∷ [] };
  role = Role.leader;
}

pub leading-IsSound : IsSound leading
leading-IsSound = record {
  log = record { contiguous = (refl, (refl, tt)); fits = omega arith };
  applied = omega arith;
  fits = omega arith;
}

-- A rival of term 3 sends an entry that replaces the second.
abbrev pub rival : Message
rival = record {
  from = 2;
  to = 1;
  term = 3;
  kind = MessageKind.append_entries 1 1 (base_entry 2 3 ∷ []) 1;
}

step-NoPanic_example : NoPanic leading (step low_rng leading rival)
unfolding program
step-NoPanic_example =
    step-NoPanic low_rng leading rival leading-IsSound (omega arith) ((refl, tt), inr (omega arith))

tick-Progresses_example : Progresses leading (tick low_rng leading)
unfolding program
tick-Progresses_example = tick-Progresses low_rng leading leading-IsSound (omega arith)

propose-Progresses_example : Progresses leading (propose leading (7 ∷ []))
unfolding program
propose-Progresses_example = propose-Progresses leading (7 ∷ []) leading-IsSound (omega arith)

abbrev order : Message
order = record { from = 9; to = 1; term = 0; kind = MessageKind.client_request (7 ∷ []) }

step-Grows_example : Grows leading (unwrap_or (step low_rng leading order) (leading, []))
unfolding program
step-Grows_example =
    step-Grows low_rng leading order (unwrap_or (step low_rng leading order) (leading, [])) refl
      refl refl
