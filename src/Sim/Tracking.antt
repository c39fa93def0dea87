-- ===== src/Sim/Tracking.antt =====
-- The disk of raft-sim/src/storage.rs that carries out the actions of a node of
-- raft-core/src/node.rs, handler by handler.
use raft_rupee.Base.{
  suc, Option-cases, inl, inr, ◌+◌, ◌<◌, ◌≡◌, ◌∙◌, refl, sym, ap, List, [], ◌∷◌, ◌++◌, Bool, some,
  none, All, arith, u64_mod, if_cases, leb, not, ◌||◌, ◌==◌, length, set_insert,
}
use raft_rupee.Types.{Term, NodeId, next, next_of_lt}
use raft_rupee.Message.{LogEntry, Bytes, Message}
use raft_rupee.Log.{RaftLog, entries, last_index, append}
use raft_rupee.Log.Bounds.{IsLog}
use raft_rupee.Node.State.{
  RaftNode, Rng, Outcome, Action, ◌▷◌, is_leader, is_candidate, is_pre_candidate,
}
use raft_rupee.Node.Replicate.{broadcast_heartbeats, broadcast_append_entries}
use raft_rupee.Node.Commit.{majority}
use raft_rupee.Node.Election.{
  is_alone, become_leader, handle_request_vote_response, start_real_election, campaign,
  start_pre_vote, canvass, handle_pre_vote_response,
}
use raft_rupee.Node.Step.{add_entry, propose, handle_client_request}
use raft_rupee.Progress.Sound.{HasLogRoom}
use raft_rupee.Sim.Disk.{StableDisk, persist, process_actions, write_hard_state}
use raft_rupee.Sim.Writes.{append_entries_lem}
use raft_rupee.Sim.Quiet.{
  IsLogQuiet, IsQuiet, broadcast-IsLogQuiet, maybe_advance_commit_index-IsQuiet, campaign-IsQuiet,
  canvass-IsQuiet,
}

-- The disk carries out the actions without a panic, and holds the log `l` after them.
pub record Writes (d : StableDisk) (xs : List Action) (l : RaftLog) : Type 0 where
  pub disk : StableDisk
  pub written : process_actions d xs ≡ some disk
  pub holds : disk.log_entries ≡ entries l

-- A disk that holds the log of the node before the move holds its log after it.
pub record Tracks (n : RaftNode) (o : Outcome) : Type 0 where
  pub follow : (d : StableDisk) → d.log_entries ≡ entries n.log → Writes d o.1 o.0.log

pub some-not-none : {A : Type 0} {a : A} → some a ≡ none → ⊥
some-not-none h = cc

-- Only the log of the node before the move matters.
pub Tracks-of_same : (m n : RaftNode) {o : Outcome} → m.log ≡ n.log → Tracks m o → Tracks n o
Tracks-of_same m n e t = record { follow = λ d h. t.follow d (h ∙ ap entries (sym e)) }

process_actions-append :
    (d d' : StableDisk) (xs ys : List Action)
    → process_actions d xs ≡ some d'
    → process_actions d (xs ++ ys) ≡ process_actions d' ys
unfolding process_actions
process_actions-append d d' [] ys h = ground arith
process_actions-append d d' (x ∷ xs) ys h = elim (Option-cases (persist d x)) [
  | inl failed ↦ absurd (some-not-none (sym (rw (process_actions, failed) at h)))
  | inr (m, e) ↦
      rw (process_actions, e) (process_actions-append m d' xs ys (rw (process_actions, e) at h))
]

pub ▷-Tracks :
    (n : RaftNode) (o p : Outcome) → Tracks n o → Tracks o.0 p → Tracks n (p.0, o.1 ++ p.1)
▷-Tracks n o p a b = record {
  follow = λ d h.
      let w = a.follow d h in
      let x = b.follow w.disk w.holds in
      record {
        disk = x.disk;
        written = process_actions-append d w.disk o.1 p.1 w.written ∙ x.written;
        holds = x.holds;
      };
}

Writes-quiet :
    (d : StableDisk) (xs : List Action) (l : RaftLog)
    → All IsLogQuiet xs
    → d.log_entries ≡ entries l
    → Writes d xs l
unfolding process_actions persist write_hard_state
Writes-quiet d [] l q h = record { disk = d; written = refl; holds = h }
Writes-quiet d (Action.send _ ∷ xs) l q h =
    let w = Writes-quiet d xs l q.1 h in
    record { disk = w.disk; written = w.written; holds = w.holds }
Writes-quiet d (Action.append_entries _ ∷ xs) l q h = absurd q.0
Writes-quiet d (Action.truncate_and_append _ _ ∷ xs) l q h = absurd q.0
Writes-quiet d (Action.persist_hard_state t v ∷ xs) l q h =
    let w = Writes-quiet (write_hard_state d t v) xs l q.1 h in
    record { disk = w.disk; written = w.written; holds = w.holds }
Writes-quiet d (Action.apply _ ∷ xs) l q h =
    let w = Writes-quiet d xs l q.1 h in
    record { disk = w.disk; written = w.written; holds = w.holds }
Writes-quiet d (Action.persist_snapshot _ _ _ ∷ xs) l q h = absurd q.0

pub IsQuiet-Tracks : (n : RaftNode) (o : Outcome) → IsQuiet n o → Tracks n o
IsQuiet-Tracks n o q = record {
  follow = λ d h. Writes-quiet d o.1 o.0.log q.1 (h ∙ ap entries (sym q.0));
}

-- A single entry appended to the log and to the disk.
append_one-Writes :
    (d : StableDisk) (l : RaftLog) (e : LogEntry) (xs : List Action)
    → IsLog l
    → last_index l + 1 < u64_mod
    → e.index ≡ next (last_index l)
    → All IsLogQuiet xs
    → d.log_entries ≡ entries l
    → Writes d (Action.append_entries (e ∷ []) ∷ xs) (append l (e ∷ []))
unfolding process_actions persist
append_one-Writes d l e xs v room at q h =
    let p : last_index l + 1 ≡ suc (last_index l) = omega arith in
    let a = append_entries_lem d l (e ∷ []) v h (at ∙ next_of_lt (last_index l) room ∙ p, tt) in
    let w = Writes-quiet (record d { log_entries = entries (append l (e ∷ [])) }) xs _ q refl in
    record { disk = w.disk; written = rw (process_actions, a) w.written; holds = w.holds }

become_leader-Tracks : (n : RaftNode) → IsLog n.log → HasLogRoom n → Tracks n (become_leader n)
unfolding become_leader broadcast_heartbeats
become_leader-Tracks n v room = record {
  follow = λ d h.
      append_one-Writes d n.log _ _ v (omega (arith, room)) refl
        (broadcast-IsLogQuiet (become_leader n).0) h;
}

add_entry-Tracks :
    (n : RaftNode) (command : Bytes) → IsLog n.log → HasLogRoom n → Tracks n (add_entry n command)
unfolding add_entry broadcast_append_entries
add_entry-Tracks n command v room = record {
  follow = λ d h.
      append_one-Writes d n.log _ _ v (omega (arith, room)) refl
        (broadcast-IsLogQuiet (add_entry n command).0) h;
}

pub propose-Tracks :
    (n : RaftNode) (command : Bytes) → IsLog n.log → HasLogRoom n → Tracks n (propose n command)
unfolding propose ◌▷◌
propose-Tracks n command v room =
    let o = add_entry n command in
    if_cases {A = Outcome} (Tracks n) (is_leader n.role) _ _
      (λ _. ▷-Tracks n o _ (add_entry-Tracks n command v room) (
        if_cases {A = Outcome} (Tracks o.0) (is_alone o.0) _ _
          (λ _. IsQuiet-Tracks o.0 _ (maybe_advance_commit_index-IsQuiet o.0))
          (λ _. IsQuiet-Tracks o.0 _ (refl, tt))))
      (λ _. IsQuiet-Tracks n _ (refl, tt))

pub handle_client_request-Tracks :
    (n : RaftNode) (msg : Message) (command : Bytes)
    → IsLog n.log
    → HasLogRoom n
    → Tracks n (handle_client_request n msg command)
unfolding handle_client_request ◌▷◌
handle_client_request-Tracks n msg command v room =
    let o = propose n command in
    if_cases {A = Outcome} (Tracks n) (is_leader n.role) _ _
      (λ _.
        ▷-Tracks n o _ (propose-Tracks n command v room) (IsQuiet-Tracks o.0 _ (refl, (tt, tt))))
      (λ _. IsQuiet-Tracks n _ (refl, (tt, tt)))

pub handle_request_vote_response-Tracks :
    (n : RaftNode) (from : NodeId) (t : Term) (granted : Bool)
    → IsLog n.log
    → HasLogRoom n
    → Tracks n (handle_request_vote_response n from t granted)
unfolding handle_request_vote_response
handle_request_vote_response-Tracks n from t granted v room =
    let n' = record n { votes_received = set_insert from n.votes_received } in
    if_cases (Tracks n) (not (is_candidate n.role) || not (t == n.current_term)) _ _
      (λ _. IsQuiet-Tracks n _ (refl, tt))
      (λ _.
        if_cases (Tracks n) granted _ _
          (λ _.
            if_cases (Tracks n) (leb (majority n') (length n'.votes_received)) _ _
              (λ _. Tracks-of_same n' n refl (become_leader-Tracks n' v room))
              (λ _. IsQuiet-Tracks n _ (refl, tt)))
          (λ _. IsQuiet-Tracks n _ (refl, tt)))

module _ (r : Rng) where
  start_real_election-Tracks :
      (n : RaftNode) → IsLog n.log → HasLogRoom n → Tracks n (start_real_election r n)
  unfolding start_real_election campaign ◌▷◌
  start_real_election-Tracks n v room =
      let o = campaign r n in
      ▷-Tracks n o _ (IsQuiet-Tracks n o (campaign-IsQuiet r n)) (
        if_cases {A = Outcome} (Tracks o.0) (is_alone o.0) _ _
          (λ _. become_leader-Tracks o.0 v room) (λ _. IsQuiet-Tracks o.0 _ (refl, tt)))

  pub start_pre_vote-Tracks :
      (n : RaftNode) → IsLog n.log → HasLogRoom n → Tracks n (start_pre_vote r n)
  unfolding start_pre_vote canvass ◌▷◌
  start_pre_vote-Tracks n v room =
      let o = canvass r n in
      ▷-Tracks n o _ (IsQuiet-Tracks n o (canvass-IsQuiet r n)) (
        if_cases {A = Outcome} (Tracks o.0) (is_alone o.0) _ _
          (λ _. start_real_election-Tracks o.0 v room) (λ _. IsQuiet-Tracks o.0 _ (refl, tt)))

  pub handle_pre_vote_response-Tracks :
      (n : RaftNode) (from : NodeId) (t : Term) (granted : Bool)
      → IsLog n.log
      → HasLogRoom n
      → Tracks n (handle_pre_vote_response r n from t granted)
  unfolding handle_pre_vote_response
  handle_pre_vote_response-Tracks n from t granted v room =
      let n' = record n { pre_votes_received = set_insert from n.pre_votes_received } in
      if_cases (Tracks n) (not (is_pre_candidate n.role) || not (t == n.current_term)) _ _
        (λ _. IsQuiet-Tracks n _ (refl, tt))
        (λ _.
          if_cases (Tracks n) granted _ _
            (λ _.
              if_cases (Tracks n) (leb (majority n') (length n'.pre_votes_received)) _ _
                (λ _. Tracks-of_same n' n refl (start_real_election-Tracks n' v room))
                (λ _. IsQuiet-Tracks n _ (refl, tt)))
            (λ _. IsQuiet-Tracks n _ (refl, tt)))
