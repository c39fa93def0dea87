-- ===== src/Replication/AppendOnly.antt =====
-- The append-only property of leaders over the entry points of raft-core/src/node.rs.
use raft_rupee.Base.{
  ◌≡◌, ◌⊎◌, ◌∙◌, ap, refl, inl, inr, Option, some, none, true, arith, if_cases, ltb, ◌&&◌,
  map-eq-some, some_inj, subst, Bool-cases,
}
use raft_rupee.Message.{Message, MessageKind}
use raft_rupee.Node.State.{Role, RaftNode, Rng, Outcome, is_leader}
use raft_rupee.Node.Election.{become_follower, handle_pre_vote}
use raft_rupee.Node.Step.{is_peer_msg, dispatch, meet_term, step}
use raft_rupee.Election.Kept.{
  handle_append_entries_response-Keeps, handle_install_snapshot_response-Keeps,
  handle_request_vote-Keeps,
}
use raft_rupee.Replication.Leader.{
  Grows, become_follower-role, handle_append_entries-role, handle_append_entries_response-log,
  handle_client_request-Grows, handle_install_snapshot-role, handle_install_snapshot_response-log,
  handle_pre_vote_response-idle, handle_request_vote-log, handle_request_vote_response-idle,
  leader-not-candidate,
}

follower-not-leader : (o : Outcome) → o.0.role ≡ Role.follower → is_leader o.0.role ≡ true → ⊥
follower-not-leader o f l = let k : is_leader Role.follower ≡ true = rw f at l in cc

-- A handler that changes nothing unless it makes a follower.
or_follower :
    (n : RaftNode) (o : Outcome)
    → (o.0 ≡ n) ⊎ (o.0.role ≡ Role.follower)
    → is_leader o.0.role ≡ true
    → Grows n o
or_follower n o (inl e) l = inl (ap (λ (m : RaftNode). m.log) e)
or_follower n o (inr f) l = absurd (follower-not-leader o f l)

still_follower :
    {n m : RaftNode}
    → (m ≡ n) ⊎ (m.role ≡ Role.follower)
    → n.role ≡ Role.follower
    → m.role ≡ Role.follower
still_follower (inl e) f = ap (λ (k : RaftNode). k.role) e ∙ f
still_follower (inr g) f = g

module _ (r : Rng) where
  dispatch-Grows :
      (msg : Message) (kind : MessageKind) (n : RaftNode) {o : Outcome}
      → is_leader n.role ≡ true
      → dispatch r msg kind n ≡ some o
      → is_leader o.0.role ≡ true
      → Grows n o
  unfolding dispatch handle_pre_vote
  dispatch-Grows msg (MessageKind.client_request c) n l h l' =
      subst (Grows n) (some_inj h) (handle_client_request-Grows n msg c)
  dispatch-Grows msg (MessageKind.client_response _ _) n l h l' =
      subst (Grows n) (some_inj h) (inl refl)
  dispatch-Grows msg (MessageKind.pre_vote i t) n l h l' = subst (Grows n) (some_inj h) (inl refl)
  dispatch-Grows msg (MessageKind.pre_vote_response g) n l h l' =
      let idle =
        handle_pre_vote_response-idle r n msg.from msg.term g (leader-not-candidate n.role l).1 in
      subst (Grows n) (some_inj h) (inl (ap (λ (p : Outcome). p.0.log) idle))
  dispatch-Grows msg (MessageKind.request_vote i t) n l h l' =
      subst (Grows n) (some_inj h) (inl (handle_request_vote-log n msg.from i t))
  dispatch-Grows msg (MessageKind.request_vote_response g) n l h l' =
      let idle =
        handle_request_vote_response-idle n msg.from msg.term g (leader-not-candidate n.role l).0 in
      subst (Grows n) (some_inj h) (inl (ap (λ (p : Outcome). p.0.log) idle))
  dispatch-Grows msg (MessageKind.append_entries i t es c) n {o} l h l' =
      or_follower n o (handle_append_entries-role r n msg.from msg.term i t es c h) l'
  dispatch-Grows msg (MessageKind.append_entries_response b t i) n l h l' =
      subst (Grows n) (some_inj h)
        (inl (handle_append_entries_response-log n msg.from msg.term b t i))
  dispatch-Grows msg (MessageKind.install_snapshot i t _ b d) n {o} l h l' =
      or_follower n o
        (subst (λ (p : Outcome). (p.0 ≡ n) ⊎ (p.0.role ≡ Role.follower)) (some_inj h)
          (handle_install_snapshot-role r n msg.from msg.term i t b d))
        l'
  dispatch-Grows msg MessageKind.install_snapshot_response n l h l' =
      subst (Grows n) (some_inj h) (inl (handle_install_snapshot_response-log n msg.from msg.term))

  -- A follower does not become anything else by a message of a peer.
  dispatch-follower :
      (msg : Message) (kind : MessageKind) (n : RaftNode) {o : Outcome}
      → is_peer_msg kind ≡ true
      → n.role ≡ Role.follower
      → dispatch r msg kind n ≡ some o
      → o.0.role ≡ Role.follower
  unfolding dispatch handle_pre_vote
  dispatch-follower msg (MessageKind.client_request c) n p f h = ground arith
  dispatch-follower msg (MessageKind.client_response _ _) n p f h = ground arith
  dispatch-follower msg (MessageKind.pre_vote i t) n p f h = ground arith
  dispatch-follower msg (MessageKind.pre_vote_response g) n p f h = ground arith
  dispatch-follower msg (MessageKind.request_vote i t) n p f h =
      subst (λ (o : Outcome). o.0.role ≡ Role.follower) (some_inj h)
        ((handle_request_vote-Keeps n msg.from i t).role ∙ f)
  dispatch-follower msg (MessageKind.request_vote_response g) n p f h =
      let idle = handle_request_vote_response-idle n msg.from msg.term g (ground arith) in
      subst (λ (o : Outcome). o.0.role ≡ Role.follower) (some_inj h)
        (ap (λ (q : Outcome). q.0.role) idle ∙ f)
  dispatch-follower msg (MessageKind.append_entries i t es c) n p f h =
      still_follower (handle_append_entries-role r n msg.from msg.term i t es c h) f
  dispatch-follower msg (MessageKind.append_entries_response b t i) n p f h =
      subst (λ (o : Outcome). o.0.role ≡ Role.follower) (some_inj h)
        ((handle_append_entries_response-Keeps n msg.from msg.term b t i).role ∙ f)
  dispatch-follower msg (MessageKind.install_snapshot i t _ b d) n p f h =
      subst (λ (o : Outcome). o.0.role ≡ Role.follower) (some_inj h)
        (still_follower (handle_install_snapshot-role r n msg.from msg.term i t b d) f)
  dispatch-follower msg MessageKind.install_snapshot_response n p f h =
      subst (λ (o : Outcome). o.0.role ≡ Role.follower) (some_inj h)
        ((handle_install_snapshot_response-Keeps n msg.from msg.term).role ∙ f)

  -- A message of a newer term makes a follower.
  step-follower :
      (n : RaftNode) (msg : Message) {o : Outcome}
      → (ltb n.current_term msg.term && is_peer_msg msg.kind) ≡ true
      → step r n msg ≡ some o
      → o.0.role ≡ Role.follower
  unfolding step meet_term
  step-follower n msg {o} newer h =
      let f = become_follower r msg.term none n in
      let role = become_follower-role r msg.term none n in
      if_cases {A = Option Outcome} (λ x. x ≡ some o → o.0.role ≡ Role.follower)
        (ltb msg.term f.0.current_term && is_peer_msg msg.kind) _ _
        (λ _ e. subst (λ (p : Outcome). p.0.role ≡ Role.follower) (some_inj e) role)
        (λ _ e.
          let (p, q, s) = map-eq-some _ (dispatch r msg msg.kind f.0) e in
          subst (λ (p : Outcome). p.0.role ≡ Role.follower) s
            (dispatch-follower msg msg.kind f.0 (ground arith) role q))
        (rw newer at h)

  -- A leader that handles a message and still leads has the log that it had, or that log with one
  -- entry more, at the next index and of its own term: it never overwrites or removes an entry.
  pub step-Grows :
      (n : RaftNode) (msg : Message) (o : Outcome)
      → is_leader n.role ≡ true
      → step r n msg ≡ some o
      → is_leader o.0.role ≡ true
      → Grows n o
  unfolding step meet_term
  step-Grows n msg o l h l' =
      elim (Bool-cases (ltb n.current_term msg.term && is_peer_msg msg.kind)) [
        | inl newer ↦ absurd (follower-not-leader o (step-follower n msg newer h) l')
        | inr same ↦
            if_cases {A = Option Outcome} (λ x. x ≡ some o → Grows n o)
              (ltb msg.term n.current_term && is_peer_msg msg.kind) _ _
              (λ _ e. subst (Grows n) (some_inj e) (inl refl))
              (λ _ e.
                let (p, q, s) = map-eq-some _ (dispatch r msg msg.kind n) e in
                let lead : is_leader p.0.role ≡ true =
                  ap (λ (k : Outcome). is_leader k.0.role) s ∙ l' in
                subst (Grows n) s (dispatch-Grows msg msg.kind n l q lead))
              (rw same at h)
      ]
