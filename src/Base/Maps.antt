-- ===== src/Base/Maps.antt =====
-- The std collections that the node keeps: a HashMap from node ids as a function, and a HashSet of
-- node ids as a list without repetitions.
use Prim.Native.Nat.{ℕ}
use mathlib.Core.Bool.{Bool, false, ◌||◌}
use mathlib.Core.Option.{Option, none, some}
use mathlib.Core.List.{List, [], ◌∷◌}
use raft_rupee.Base.Tests.{◌==◌, if◌then◌else◌}

abbrev pub HashMap : Type 0 → Type 0
HashMap V = ℕ → Option V

abbrev pub empty_map : {V : Type 0} → HashMap V
empty_map k = none

abbrev pub map_insert : {V : Type 0} → ℕ → V → HashMap V → HashMap V
map_insert k v m j = if k == j then some v else m j

-- `.copied().unwrap_or(d)`
abbrev pub unwrap_or {ℓ} : {A : Type ℓ} → Option A → A → A
unwrap_or none d = d
unwrap_or (some a) d = a

unfoldable pub contains : List ℕ → ℕ → Bool
contains [] a = false
contains (x ∷ xs) a = x == a || contains xs a

unfoldable pub set_insert : ℕ → List ℕ → List ℕ
set_insert a xs = if contains xs a then xs else a ∷ xs
