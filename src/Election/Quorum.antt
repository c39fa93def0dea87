-- ===== src/Election/Quorum.antt =====
-- Sets of node ids as `votes_received` (raft-core/src/node.rs) keeps them: no repetitions, and two
-- majorities of the same members have a node in common.
use raft_rupee.Base.{
  ℕ, ◌+◌, ◌≤◌, ◌<◌, ◌≡◌, ◌⊎◌, inl, inr, List, [], ◌∷◌, true, false, arith, length, contains,
  set_insert, ◌==◌, if◌then◌else◌, Bool-cases, ==_iff,
}

abbrev pub Distinct : List ℕ → Type 0
Distinct [] = Unit {0}
Distinct (x ∷ xs) = (contains xs x ≡ false) × Distinct xs

-- `xs` holds nothing that `ms` does not hold.
abbrev pub Within : List ℕ → List ℕ → Type 0
Within ms xs = (v : ℕ) → contains xs v ≡ true → contains ms v ≡ true

pub set_insert-Distinct : (a : ℕ) (xs : List ℕ) → Distinct xs → Distinct (set_insert a xs)
unfolding set_insert
set_insert-Distinct a xs d = elim (Bool-cases (contains xs a)) [
  | inl old ↦ rw old d
  | inr new ↦ rw new (new, d)
]

-- An insertion adds that element and no other.
pub contains-set_insert :
    (a : ℕ) (xs : List ℕ) (v : ℕ)
    → contains (set_insert a xs) v ≡ true
    → (v ≡ a) ⊎ (contains xs v ≡ true)
unfolding set_insert contains
contains-set_insert a xs v h = ground arith

-- How many of the members the set holds.
count_in : List ℕ → List ℕ → ℕ
count_in xs [] = 0
count_in xs (m ∷ ms) = (if contains xs m then 1 else 0) + count_in xs ms

count_in-nil-le : (ms : List ℕ) (x : ℕ) (xs : List ℕ) → count_in xs ms ≤ count_in (x ∷ xs) ms
unfolding count_in contains
count_in-nil-le [] x xs = omega arith
count_in-nil-le (m ∷ ms) x xs = ground (arith, count_in-nil-le ms x xs)

count_in-cons :
    (ms : List ℕ) (x : ℕ) (xs : List ℕ)
    → contains ms x ≡ true
    → contains xs x ≡ false
    → count_in xs ms < count_in (x ∷ xs) ms
unfolding count_in contains
count_in-cons [] x xs h k = ground arith
count_in-cons (m ∷ ms) x xs h k = elim (Bool-cases (m == x)) [
  | inl here ↦ let e : m ≡ x = (==_iff m x).0 here in rw e (ground (arith, count_in-nil-le ms x xs))
  | inr later ↦ ground (arith, count_in-cons ms x xs)
]

length-le-count_in : (ms xs : List ℕ) → Distinct xs → Within ms xs → length xs ≤ count_in xs ms
unfolding contains
length-le-count_in ms [] d w = omega arith
length-le-count_in ms (x ∷ xs) d w = omega (
  arith,
  length-le-count_in ms xs d.1 (λ v h. w v (ground arith)),
  count_in-cons ms x xs (w x (ground arith)) d.0,
)

shared :
    (ms xs ys : List ℕ)
    → length ms < count_in xs ms + count_in ys ms
    → (v : ℕ) × (contains xs v ≡ true) × (contains ys v ≡ true)
unfolding count_in
shared [] xs ys h = absurd (omega arith)
shared (m ∷ ms) xs ys h = elim (Bool-cases (contains xs m)) [
  | inl x ↦ elim (Bool-cases (contains ys m)) [
    | inl y ↦ (m, x, y)
    | inr y ↦ shared ms xs ys (ground arith)
  ]
  | inr x ↦ shared ms xs ys (ground arith)
]

-- Two sets of members that together outnumber the members share one.
pub quorums_meet :
    (ms xs ys : List ℕ)
    → Distinct xs
    → Distinct ys
    → Within ms xs
    → Within ms ys
    → length ms < length xs + length ys
    → (v : ℕ) × (contains xs v ≡ true) × (contains ys v ≡ true)
quorums_meet ms xs ys dx dy wx wy h =
    shared ms xs ys (omega (arith, length-le-count_in ms xs dx wx, length-le-count_in ms ys dy wy))
