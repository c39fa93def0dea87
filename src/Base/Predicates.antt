-- ===== src/Base/Predicates.antt =====
-- A predicate on every element of a list, by recursion.
use Prim.Native.Nat.{ℕ, zero, suc}
use mathlib.Core.Logic.{◌⊎◌, inr}
use mathlib.Core.List.{List, [], ◌∷◌, ◌++◌, map}

module _ {ℓ κ} {A : Type ℓ} where
  abbrev pub All : (A → Type κ) → List A → Type κ
  All P [] = Unit
  All P (x ∷ xs) = P x × All P xs

  -- What holds of two lists holds of one after the other.
  pub All-append : (P : A → Type κ) (l m : List A) → All P l → All P m → All P (l ++ m)
  All-append P [] m _ on_m = on_m
  All-append P (a ∷ l) m on_l on_m = (on_l.0, All-append P l m on_l.1 on_m)

  pub All-append_right : (P : A → Type κ) (l m : List A) → All P (l ++ m) → All P m
  All-append_right P [] m h = h
  All-append_right P (x ∷ l) m h = All-append_right P l m h.1

  pub All-mono : (P Q : A → Type κ) (xs : List A) → ((x : A) → P x → Q x) → All P xs → All Q xs
  All-mono P Q [] f h = h
  All-mono P Q (x ∷ xs) f h = (f x h.0, All-mono P Q xs f h.1)

pub All-map {ℓ μ κ} :
    {A : Type ℓ} {B : Type μ} (P : B → Type κ) (f : A → B) (xs : List A)
    → ((x : A) → P (f x))
    → All P (map f xs)
All-map P f [] h = tt
All-map P f (x ∷ xs) h = (h x, All-map P f xs h)

module _ {ℓ} {A : Type ℓ} (P : A → Type 0) where
  -- `k` elements of the list, at different places, have the property.
  abbrev pub AtLeast : ℕ → List A → Type 0
  AtLeast zero xs = Unit {0}
  AtLeast (suc k) [] = ⊥
  AtLeast (suc k) (x ∷ xs) = (P x × AtLeast k xs) ⊎ AtLeast (suc k) xs

  pub AtLeast-cons : (k : ℕ) (x : A) (xs : List A) → AtLeast k xs → AtLeast k (x ∷ xs)
  AtLeast-cons zero x xs h = tt
  AtLeast-cons (suc k) x xs h = inr h
