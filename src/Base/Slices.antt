-- ===== src/Base/Slices.antt =====
-- Slices of a list, as Rust writes them, and the copying of one list over a part of another.
use Prim.Native.Nat.{ℕ, zero, suc, ◌+◌, ◌-◌, ◌≤◌}
use mathlib.Core.Path.{◌≡◌, refl, ap, ◌∙◌, sym}
use mathlib.Core.List.{List, [], ◌∷◌, ◌++◌, append_assoc}
use native.Mathlib.Omega.{arith}
use raft_rupee.Base.Predicates.{All}
use raft_rupee.Base.Lists.{length, take, drop, length-take, length-drop}

module _ {ℓ} {A : Type ℓ} where
  -- `xs[i..j]`
  unfoldable pub slice : List A → ℕ → ℕ → List A
  slice xs i j = take (j - i) (drop i xs)

  -- `xs[i..i + src.len()].copy_from_slice(src)`
  unfoldable pub overwrite : ℕ → List A → List A → List A
  overwrite i src xs = take i xs ++ (src ++ drop (i + length src) xs)

  pub take-append_of_le : (n : ℕ) (xs ys : List A) → n ≤ length xs → take n (xs ++ ys) ≡ take n xs
  take-append_of_le zero xs ys h = refl
  take-append_of_le (suc n) [] ys h = absurd (omega arith)
  take-append_of_le (suc n) (x ∷ xs) ys h =
      ap (λ l. x ∷ l) (take-append_of_le n xs ys (omega arith))

  pub take-append : (xs ys : List A) → take (length xs) (xs ++ ys) ≡ xs
  take-append [] ys = refl
  take-append (x ∷ xs) ys = ap (λ l. x ∷ l) (take-append xs ys)

  pub take_of_le : (n : ℕ) (xs : List A) → length xs ≤ n → take n xs ≡ xs
  take_of_le zero [] h = refl
  take_of_le zero (x ∷ xs) h = absurd (omega arith)
  take_of_le (suc n) [] h = refl
  take_of_le (suc n) (x ∷ xs) h = ap (λ l. x ∷ l) (take_of_le n xs (omega arith))

  pub drop-append : (xs ys : List A) (n : ℕ) → drop (length xs + n) (xs ++ ys) ≡ drop n ys
  drop-append [] ys n = ap (λ k. drop k ys) (omega arith)
  drop-append (x ∷ xs) ys n =
      let e : length (x ∷ xs) + n ≡ suc (length xs + n) = omega arith in rw e (drop-append xs ys n)

  pub drop_all : (n : ℕ) (xs : List A) → length xs ≤ n → drop n xs ≡ []
  drop_all zero [] h = refl
  drop_all zero (x ∷ xs) h = absurd (omega arith)
  drop_all (suc n) [] h = refl
  drop_all (suc n) (x ∷ xs) h = drop_all n xs (omega arith)

  pub drop-drop : (n k : ℕ) (xs : List A) → drop k (drop n xs) ≡ drop (n + k) xs
  drop-drop zero k xs = ap (λ i. drop i xs) (omega arith)
  drop-drop (suc n) k [] = rw (drop_all k [] (omega arith), drop_all (suc n + k) [] (omega arith))
  drop-drop (suc n) k (x ∷ xs) =
      let e : suc n + k ≡ suc (n + k) = omega arith in rw e (drop-drop n k xs)

  pub take-drop : (n : ℕ) (xs : List A) → take n xs ++ drop n xs ≡ xs
  take-drop zero xs = refl
  take-drop (suc n) [] = refl
  take-drop (suc n) (x ∷ xs) = ap (λ l. x ∷ l) (take-drop n xs)

  -- A slice that lies in the second of two lists, right at its start.
  pub slice-append :
      (xs ys zs : List A) (i j : ℕ)
      → length xs ≡ i
      → i + length ys ≡ j
      → slice (xs ++ (ys ++ zs)) i j ≡ ys
  unfolding slice
  slice-append xs ys zs i j hi hj =
      let at_i : i ≡ length xs + 0 = omega arith in
      let len : j - i ≡ length ys = omega arith in
      rw len (
        ap (λ k. take (length ys) (drop k (xs ++ (ys ++ zs)))) at_i
        ∙ ap (take (length ys)) (drop-append xs (ys ++ zs) 0)
        ∙ take-append ys zs)

  -- Copying right behind what has been written moves the rest along.
  pub overwrite-append :
      (front src xs : List A) (n k : ℕ)
      → length front ≡ n
      → n + length src ≡ k
      → overwrite n src (front ++ drop n xs) ≡ (front ++ src) ++ drop k xs
  unfolding overwrite
  overwrite-append front src xs n k hn hk =
      let at_n : n ≡ length front = omega arith in
      let behind : n + length src ≡ length front + length src = omega arith in
      let at_k : n + length src ≡ k = omega arith in
      rw
        (
          ap (λ i. take i (front ++ drop n xs)) at_n ∙ take-append front (drop n xs),
          ap (λ i. drop i (front ++ drop n xs)) behind
              ∙ drop-append front (drop n xs) (length src)
              ∙ drop-drop n (length src) xs
              ∙ ap (λ i. drop i xs) at_k,
        )
        (sym (append_assoc front src (drop k xs)))

  -- In a slice of what follows position `n`, positions count from `n`.
  pub slice-drop : (xs : List A) (n i j : ℕ) → slice xs (n + i) (n + j) ≡ slice (drop n xs) i j
  unfolding slice
  slice-drop xs n i j =
      let e : (n + j) - (n + i) ≡ j - i = omega arith in rw (e, drop-drop n i xs) refl

  pub slice_rest : (xs : List A) (i j : ℕ) → i ≤ j → slice xs i j ++ drop j xs ≡ drop i xs
  unfolding slice
  slice_rest xs i j h =
      let e : j ≡ i + (j - i) = omega arith in
      ap (λ k. take (j - i) (drop i xs) ++ drop k xs) e
      ∙ ap (λ l. take (j - i) (drop i xs) ++ l) (sym (drop-drop i (j - i) xs))
      ∙ take-drop (j - i) (drop i xs)

  pub length-slice : (xs : List A) (i j : ℕ) → j ≤ length xs → length (slice xs i j) ≡ j - i
  unfolding slice
  length-slice xs i j h = omega (arith, length-take (j - i) (drop i xs), length-drop i xs)

  pub All-take {κ} : (P : A → Type κ) (n : ℕ) (xs : List A) → All P xs → All P (take n xs)
  All-take P zero xs h = tt
  All-take P (suc n) [] h = tt
  All-take P (suc n) (x ∷ xs) h = (h.0, All-take P n xs h.1)

  pub All-drop {κ} : (P : A → Type κ) (n : ℕ) (xs : List A) → All P xs → All P (drop n xs)
  All-drop P zero xs h = h
  All-drop P (suc n) [] h = h
  All-drop P (suc n) (x ∷ xs) h = All-drop P n xs h.1

  pub All-slice {κ} : (P : A → Type κ) (xs : List A) (i j : ℕ) → All P xs → All P (slice xs i j)
  unfolding slice
  All-slice P xs i j h = All-take P (j - i) (drop i xs) (All-drop P i xs h)
