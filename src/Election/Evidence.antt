-- ===== src/Election/Evidence.antt =====
-- Votes as they can be read off the actions of a node (raft-core/src/node.rs), and the hard state
-- that its driver has stored after them.
use raft_rupee.Base.{
  ◌≡◌, refl, ◌⊎◌, inl, inr, List, [], ◌∷◌, ◌++◌, Option, none, some, Bool, true, false, arith, All,
}
use raft_rupee.Types.{Term, NodeId}
use raft_rupee.Message.{MessageKind}
use raft_rupee.Node.State.{RaftNode, Action}

abbrev pub is_grant : MessageKind → Bool
is_grant (MessageKind.request_vote_response granted) = granted
is_grant _ = false

abbrev granted_vote : Bool → Term → NodeId → Option (Term × NodeId)
granted_vote true t c = some (t, c)
granted_vote false t c = none

-- The vote that an action casts or reports: a stored vote, or a vote granted by message.
abbrev pub vote_in : Action → Option (Term × NodeId)
vote_in (Action.persist_hard_state t (some c)) = some (t, c)
vote_in (Action.send m) = granted_vote (is_grant m.kind) m.term m.to
vote_in _ = none

-- Some action of the list casts a vote for `c` in term `t`.
abbrev pub HasVote : Term → NodeId → List Action → Type 0
HasVote t c [] = ⊥
HasVote t c (a ∷ rest) = (vote_in a ≡ some (t, c)) ⊎ HasVote t c rest

pub HasVote-append_left :
    (t : Term) (c : NodeId) (xs ys : List Action) → HasVote t c xs → HasVote t c (xs ++ ys)
HasVote-append_left t c [] ys h = absurd h
HasVote-append_left t c (a ∷ xs) ys (inl e) = inl e
HasVote-append_left t c (a ∷ xs) ys (inr h) = inr (HasVote-append_left t c xs ys h)

pub HasVote-append_right :
    (t : Term) (c : NodeId) (xs ys : List Action) → HasVote t c ys → HasVote t c (xs ++ ys)
HasVote-append_right t c [] ys h = h
HasVote-append_right t c (a ∷ xs) ys h = inr (HasVote-append_right t c xs ys h)

pub HasVote-append_cases :
    (t : Term) (c : NodeId) (xs ys : List Action)
    → HasVote t c (xs ++ ys)
    → HasVote t c xs ⊎ HasVote t c ys
HasVote-append_cases t c [] ys h = inr h
HasVote-append_cases t c (a ∷ xs) ys (inl e) = inl (inl e)
HasVote-append_cases t c (a ∷ xs) ys (inr h) = elim (HasVote-append_cases t c xs ys h) [
  | inl h' ↦ inl (inr h')
  | inr h' ↦ inr h'
]

-- The hard state on disk: what the last action that stores one has stored.
abbrev pub HardState : Type 0
HardState = Term × Option NodeId

abbrev pub store_one : HardState → Action → HardState
store_one s (Action.persist_hard_state t vote) = (t, vote)
store_one s _ = s

unfoldable pub stored : HardState → List Action → HardState
stored s [] = s
stored s (a ∷ rest) = stored (store_one s a) rest

pub stored-append :
    (s : HardState) (xs ys : List Action) → stored s (xs ++ ys) ≡ stored (stored s xs) ys
unfolding stored
stored-append s [] ys = refl
stored-append s (a ∷ xs) ys = stored-append (store_one s a) xs ys

abbrev pub hard_state : RaftNode → HardState
hard_state n = (n.current_term, n.voted_for)

-- Every message is stamped with the sender's id.
abbrev pub IsFrom : NodeId → Action → Type 0
IsFrom i (Action.send m) = m.from ≡ i
IsFrom i _ = Unit {0}

-- An action that neither stores a hard state nor casts a vote.
abbrev pub IsPlain : Action → Type 0
IsPlain (Action.send m) = is_grant m.kind ≡ false
IsPlain (Action.persist_hard_state _ _) = ⊥
IsPlain _ = Unit {0}

abbrev pub CastsNone : Action → Type 0
CastsNone a = vote_in a ≡ none

-- Each vote that the action casts is the node's vote in its current term.
abbrev pub CastsOwn : RaftNode → Action → Type 0
CastsOwn n a =
    (t : Term) (c : NodeId)
    → vote_in a ≡ some (t, c)
    → (t ≡ n.current_term) × (n.voted_for ≡ some c)

pub stored-plain : (s : HardState) (xs : List Action) → All IsPlain xs → stored s xs ≡ s
unfolding stored
stored-plain s [] h = refl
stored-plain s (Action.send m ∷ xs) h = stored-plain s xs h.1
stored-plain s (Action.append_entries _ ∷ xs) h = stored-plain s xs h.1
stored-plain s (Action.truncate_and_append _ _ ∷ xs) h = stored-plain s xs h.1
stored-plain s (Action.persist_hard_state _ _ ∷ xs) h = absurd h.0
stored-plain s (Action.apply _ ∷ xs) h = stored-plain s xs h.1
stored-plain s (Action.persist_snapshot _ _ _ ∷ xs) h = stored-plain s xs h.1

pub IsPlain-CastsNone : (a : Action) → IsPlain a → CastsNone a
IsPlain-CastsNone (Action.send m) h = ground arith
IsPlain-CastsNone (Action.append_entries _) h = refl
IsPlain-CastsNone (Action.truncate_and_append _ _) h = refl
IsPlain-CastsNone (Action.persist_hard_state _ _) h = absurd h
IsPlain-CastsNone (Action.apply _) h = refl
IsPlain-CastsNone (Action.persist_snapshot _ _ _) h = refl

pub CastsNone-CastsOwn : (n : RaftNode) (a : Action) → CastsNone a → CastsOwn n a
CastsNone-CastsOwn n a h = λ t c e. cc

-- A vote among actions that cast only the node's own vote is that vote.
pub HasVote-CastsOwn :
    (n : RaftNode) (t : Term) (c : NodeId) (xs : List Action)
    → All (CastsOwn n) xs
    → HasVote t c xs
    → (t ≡ n.current_term) × (n.voted_for ≡ some c)
HasVote-CastsOwn n t c [] own h = absurd h
HasVote-CastsOwn n t c (a ∷ xs) own (inl e) = own.0 t c e
HasVote-CastsOwn n t c (a ∷ xs) own (inr h) = HasVote-CastsOwn n t c xs own.1 h
