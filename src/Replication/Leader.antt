-- ===== src/Replication/Leader.antt =====
-- What a leader of raft-core/src/node.rs does to its own log.
use raft_rupee.Base.{
  ◌≡◌, ◌⊎◌, ◌∙◌, sym, ap, refl, inl, inr, List, [], ◌∷◌, Option, Bool, some, true, false, arith,
  if_cases, ltb, not, ◌||◌, ◌&&◌, ◌==◌, map-eq-some, some_inj,
}
use raft_rupee.Types.{LogIndex, Term, NodeId, next}
use raft_rupee.Message.{LogEntry, Message, Bytes}
use raft_rupee.Log.{append, last_index}
use raft_rupee.Node.State.{
  Role, RaftNode, Rng, Outcome, done, ◌▷◌, is_leader, is_candidate, is_pre_candidate,
}
use raft_rupee.Node.Commit.{
  apply_entries, apply_committed_entries, commit_to, maybe_advance_commit_index,
}
use raft_rupee.Node.Election.{
  is_alone, become_follower, handle_request_vote, handle_request_vote_response,
  handle_pre_vote_response, can_vote, is_log_up_to_date, leader_lease_active,
}
use raft_rupee.Node.Entries.{check_previous, handle_append_entries, handle_append_entries_response}
use raft_rupee.Node.Snapshot.{handle_install_snapshot, handle_install_snapshot_response}
use raft_rupee.Node.Step.{add_entry, propose, handle_client_request}
use raft_rupee.Election.Kept.{check_previous-Keeps, take_snapshot-Keeps}

-- The log is as it was, or has one entry more, at the next index and of the node's term.
abbrev pub Grows : RaftNode → Outcome → Type 0
Grows n o =
    (o.0.log ≡ n.log)
    ⊎ ((e : LogEntry) × (o.0.log ≡ append n.log (e ∷ []))
        × (e.index ≡ next (last_index n.log))
        × (e.term ≡ n.current_term))

apply_entries-log : (n : RaftNode) (es : List LogEntry) → (apply_entries n es).0.log ≡ n.log
unfolding apply_entries
apply_entries-log n [] = refl
apply_entries-log n (e ∷ es) = refl

apply_committed_entries-log : (n : RaftNode) → (apply_committed_entries n).0.log ≡ n.log
unfolding apply_committed_entries
apply_committed_entries-log n =
    if_cases {A = Outcome} (λ o. o.0.log ≡ n.log) (ltb n.last_applied n.commit_index) _ _
      (λ _. apply_entries-log n _) (λ _. refl)

pub maybe_advance_commit_index-log : (n : RaftNode) → (maybe_advance_commit_index n).0.log ≡ n.log
unfolding maybe_advance_commit_index commit_to
maybe_advance_commit_index-log n =
    if_cases {A = Outcome} (λ o. o.0.log ≡ n.log) (ltb n.commit_index _) _ _
      (λ _. apply_committed_entries-log (record n { commit_index = _ })) (λ _. refl)

pub propose-Grows : (n : RaftNode) (command : Bytes) → Grows n (propose n command)
unfolding propose add_entry ◌▷◌
propose-Grows n command =
    let m = (add_entry n command).0 in
    if_cases {A = Outcome} (Grows n) (is_leader n.role) _ _
      (λ _. inr (
        _,
        if_cases {A = Outcome} (λ o. o.0.log ≡ m.log) (is_alone m) _ _
            (λ _. maybe_advance_commit_index-log m) (λ _. refl),
        refl,
        refl,
      ))
      (λ _. inl refl)

pub handle_client_request-Grows :
    (n : RaftNode) (msg : Message) (command : Bytes) → Grows n (handle_client_request n msg command)
unfolding handle_client_request ◌▷◌
handle_client_request-Grows n msg command =
    if_cases {A = Outcome} (Grows n) (is_leader n.role) _ _ (λ _. propose-Grows n command)
      (λ _. inl refl)

pub handle_request_vote-log :
    (n : RaftNode) (from : NodeId) (i : LogIndex) (t : Term)
    → (handle_request_vote n from i t).0.log ≡ n.log
unfolding handle_request_vote
handle_request_vote-log n from i t =
    if_cases {A = Outcome} (λ o. o.0.log ≡ n.log)
      (can_vote n from && (is_log_up_to_date n i t && not (leader_lease_active n))) _ _ (λ _. refl)
      (λ _. refl)

pub handle_append_entries_response-log :
    (n : RaftNode) (from : NodeId) (t : Term) (b : Bool) (u : Option Term) (i : Option LogIndex)
    → (handle_append_entries_response n from t b u i).0.log ≡ n.log
unfolding handle_append_entries_response
handle_append_entries_response-log n from t b u i =
    if_cases {A = Outcome} (λ o. o.0.log ≡ n.log)
      (not (is_leader n.role) || not (t == n.current_term)) _ _ (λ _. refl)
      (λ _.
        if_cases {A = Outcome} (λ o. o.0.log ≡ n.log) b _ _ (λ _. maybe_advance_commit_index-log _)
          (λ _. refl))

pub handle_install_snapshot_response-log :
    (n : RaftNode) (from : NodeId) (t : Term)
    → (handle_install_snapshot_response n from t).0.log ≡ n.log
unfolding handle_install_snapshot_response
handle_install_snapshot_response-log n from t =
    if_cases {A = Outcome} (λ o. o.0.log ≡ n.log)
      (not (is_leader n.role) || not (t == n.current_term)) _ _ (λ _. refl)
      (λ _. maybe_advance_commit_index-log _)

-- A node that does not campaign ignores the responses to a campaign.
pub handle_request_vote_response-idle :
    (n : RaftNode) (from : NodeId) (t : Term) (granted : Bool)
    → is_candidate n.role ≡ false
    → handle_request_vote_response n from t granted ≡ done n
unfolding handle_request_vote_response
handle_request_vote_response-idle n from t granted h = rw h refl

pub leader-not-candidate :
    (r : Role) → is_leader r ≡ true → (is_candidate r ≡ false) × (is_pre_candidate r ≡ false)
leader-not-candidate Role.leader h = (refl, refl)
leader-not-candidate _ h = ground arith

module _ (r : Rng) where
  pub become_follower-role :
      (t : Term) (leader : Option NodeId) (n : RaftNode)
      → (become_follower r t leader n).0.role ≡ Role.follower
  unfolding become_follower
  become_follower-role t leader n =
      if_cases {A = Outcome} (λ o. o.0.role ≡ Role.follower) (ltb n.current_term t) _ _ (λ _. refl)
        (λ _. refl)

  pub handle_pre_vote_response-idle :
      (n : RaftNode) (from : NodeId) (t : Term) (granted : Bool)
      → is_pre_candidate n.role ≡ false
      → handle_pre_vote_response r n from t granted ≡ done n
  unfolding handle_pre_vote_response
  handle_pre_vote_response-idle n from t granted h = rw h refl

  -- An append is refused as stale, with no change, or makes a follower.
  pub handle_append_entries-role :
      (n : RaftNode) (from : NodeId) (t : Term) (i : LogIndex) (u : Term) (es : List LogEntry)
      (c : LogIndex) {o : Outcome}
      → handle_append_entries r n from t i u es c ≡ some o
      → (o.0 ≡ n) ⊎ (o.0.role ≡ Role.follower)
  unfolding handle_append_entries
  handle_append_entries-role n from t i u es c {o} =
      let f = become_follower r t (some from) n in
      if_cases {A = Option Outcome} (λ x. x ≡ some o → (o.0 ≡ n) ⊎ (o.0.role ≡ Role.follower))
        (ltb t n.current_term) _ _ (λ _ h. inl (sym (ap (λ (p : Outcome). p.0) (some_inj h))))
        (λ _ h.
          let (p, q, e) = map-eq-some _ (check_previous f.0 from i u es c _) h in
          let k = check_previous-Keeps f.0 from i u es c _ q in
          inr (
            sym (ap (λ (p : Outcome). p.0.role) e) ∙ k.role ∙ become_follower-role t (some from) n))

  pub handle_install_snapshot-role :
      (n : RaftNode) (from : NodeId) (t : Term) (i : LogIndex) (u : Term) (b : Bytes) (d : Bool)
      → ((handle_install_snapshot r n from t i u b d).0 ≡ n)
        ⊎ ((handle_install_snapshot r n from t i u b d).0.role ≡ Role.follower)
  unfolding handle_install_snapshot ◌▷◌
  handle_install_snapshot-role n from t i u b d =
      if_cases {A = Outcome} (λ o. (o.0 ≡ n) ⊎ (o.0.role ≡ Role.follower)) (ltb t n.current_term) _
        _ (λ _. inl refl)
        (λ _.
          inr ((take_snapshot-Keeps from i u b d _).role ∙ become_follower-role t (some from) n))
