-- ===== src/Ledger/Events.antt =====
-- The entry points of raft-core/src/node.rs, and the entries that they create.
use raft_rupee.Base.{
  ◌≤◌, ◌≡◌, ◌⊎◌, refl, ap, inl, inr, [], ◌∷◌, ◌++◌, Bool, some, true, arith, subst, if_cases, ltb,
  leb, not, ◌||◌, ◌==◌, if◌then◌else◌,
}
use raft_rupee.Types.{LogIndex, Term, NodeId, next, next_of_lt}
use raft_rupee.Message.{Bytes, LogEntry, Message, MessageKind}
use raft_rupee.Log.{last_index, last_term, term_at}
use raft_rupee.Node.State.{RaftNode, Role, Action, Outcome, ◌▷◌, is_leader, done, push, reply}
use raft_rupee.Node.Replicate.{broadcast_append_entries}
use raft_rupee.Node.Commit.{maybe_advance_commit_index}
use raft_rupee.Node.Election.{is_alone}
use raft_rupee.Node.Snapshot.{compact_logs, take_snapshot, handle_install_snapshot_response}
use raft_rupee.Node.Step.{add_entry, propose, handle_client_request}
use raft_rupee.Progress.Sound.{HasLogRoom}
use raft_rupee.Ledger.Chain.{Ledger, Chain}
use raft_rupee.Ledger.Edits.{append-LogChain, compact-LogChain, install_snapshot-LogChain}
use raft_rupee.Ledger.Lawful.{enters, Calm, Lawful, done-Lawful, follower-Lawful, Lawful-of_same}
use raft_rupee.Ledger.Sends.{broadcast-enters, broadcast-LinkedAction, push-Lawful, and-Lawful}
use raft_rupee.Ledger.Elections.{append_one-last_index}
use raft_rupee.Ledger.Appends.{maybe_advance_commit_index-Calm, maybe_advance_commit_index-Lawful}

module _ (k : Ledger) where
  -- A compaction at a slot, with the term of the slot, or at an index not above the base.
  pub compact_logs-Lawful :
      (n : RaftNode) (i : LogIndex) (t : Term) (payload : Bytes)
      → (i ≤ n.log.sentinel.index) ⊎ (term_at n.log i ≡ some t)
      → last_index n.log ≤ last_index (compact_logs n i t payload).0.log
      → Lawful k n (compact_logs n i t payload)
  unfolding compact_logs
  compact_logs-Lawful n i t payload known =
      if_cases {A = Outcome} (λ o. last_index n.log ≤ last_index o.0.log → Lawful k n o)
        (ltb n.commit_index i) _ _ (λ _ _. done-Lawful k n)
        (λ _ up. record {
          chain = λ _ h. compact-LogChain k n.log i t h known;
          sends = λ _ _. (tt, tt);
          entered = inl refl;
          terms = omega arith;
          leads = λ l. inl (l, refl, up);
          runs = λ c. inr (c, refl);
        })

  pub take_snapshot-Lawful :
      (from : NodeId) (i : LogIndex) (t : Term) (payload : Bytes) (complete : Bool) (n : RaftNode)
      → n.role ≡ Role.follower
      → Lawful k n (take_snapshot from i t payload complete n)
  unfolding take_snapshot
  take_snapshot-Lawful from i t payload complete n f =
      if_cases {A = Outcome} (Lawful k n) (leb i n.commit_index) _ _
        (λ _. push-Lawful k n _ refl (λ _. tt))
        (λ _.
          if_cases {A = Outcome} (Lawful k n) complete _ _
            (λ _.
              follower-Lawful k f (omega arith) refl
                (λ _. (install_snapshot-LogChain k n.log _, (tt, (tt, tt)))))
            (λ _. push-Lawful k n _ refl (λ _. tt)))

  pub handle_install_snapshot_response-Lawful :
      (n : RaftNode) (from : NodeId) (t : Term)
      → Lawful k n (handle_install_snapshot_response n from t)
  unfolding handle_install_snapshot_response
  handle_install_snapshot_response-Lawful n from t =
      if_cases (Lawful k n) (not (is_leader n.role) || not (t == n.current_term)) _ _
        (λ _. done-Lawful k n)
        (λ _. Lawful-of_same k _ n (refl, refl, refl) (maybe_advance_commit_index-Lawful k _))

  add_entry-Lawful :
      (n : RaftNode) (command : Bytes)
      → is_leader n.role ≡ true
      → HasLogRoom n
      → Lawful k n (add_entry n command)
  unfolding add_entry broadcast_append_entries
  add_entry-Lawful n command l room =
      let entry : LogEntry = record {
        index = next (last_index n.log);
        term = n.current_term;
        command = command;
      } in
      let m = (add_entry n command).0 in
      let only : (entry ∷ []) ++ enters (broadcast_append_entries m) ≡ entry ∷ [] =
        ap (λ es. entry ∷ es) (broadcast-enters m) in
      let last = append_one-last_index n.log entry in
      record {
        chain = λ made h.
            append-LogChain k n.log (entry ∷ []) h (subst (Chain k (last_term n.log)) only made);
        sends = λ made h. (
          tt,
          broadcast-LinkedAction k m (
              append-LogChain k n.log (entry ∷ []) h (subst (Chain k (last_term n.log)) only made)),
        );
        entered = inr (record {
          entry = entry;
          only = only;
          index = refl;
          term = refl;
          leads = l;
          last = last;
        });
        terms = omega arith;
        leads = λ _.
            inl (l, refl, omega (arith, last, next_of_lt (last_index n.log) (omega (arith, room))));
        runs = λ c. inr (c, refl);
      }

  pub propose-Lawful :
      (n : RaftNode) (command : Bytes) → HasLogRoom n → Lawful k n (propose n command)
  unfolding propose ◌▷◌
  propose-Lawful n command room =
      let o = add_entry n command in
      let finish : RaftNode → Outcome =
        λ m. if is_alone m then maybe_advance_commit_index m else done m in
      let calm : Calm o.0 (finish o.0) =
        if_cases {A = Outcome} (Calm o.0) (is_alone o.0) _ _
          (λ _. maybe_advance_commit_index-Calm k o.0)
          (λ _. record { silent = refl; role = refl; term = refl; log = refl }) in
      let rest : Lawful k o.0 (finish o.0) =
        if_cases {A = Outcome} (Lawful k o.0) (is_alone o.0) _ _
          (λ _. maybe_advance_commit_index-Lawful k o.0) (λ _. done-Lawful k o.0) in
      if_cases {A = Outcome} (Lawful k n) (is_leader n.role) _ _
        (λ l. and-Lawful k o (finish o.0) (add_entry-Lawful n command l room) rest calm)
        (λ _. done-Lawful k n)

  pub handle_client_request-Lawful :
      (n : RaftNode) (msg : Message) (command : Bytes)
      → HasLogRoom n
      → Lawful k n (handle_client_request n msg command)
  unfolding handle_client_request ◌▷◌
  handle_client_request-Lawful n msg command room =
      let o = propose n command in
      let answer : Action = reply o.0 msg.from (MessageKind.client_response true (some o.0.id)) in
      if_cases {A = Outcome} (Lawful k n) (is_leader n.role) _ _
        (λ _.
          and-Lawful k o (push o.0 answer) (propose-Lawful n command room)
            (push-Lawful k o.0 answer refl (λ _. tt))
            (record { silent = refl; role = refl; term = refl; log = refl }))
        (λ _. push-Lawful k n _ refl (λ _. tt))
