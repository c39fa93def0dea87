-- ===== src/Server/Rounding.antt =====
-- raft-server/src/storage.rs, `AlignedBuffer::new`: the rounding of a size to whole sectors by a mask.
use Prim.Native.Nat.{bit_and, digits, bit_and-bitwise}
use raft_rupee.Base.{
  ℕ, zero, suc, ◌+◌, ◌-◌, ◌*◌, ◌/◌, ◌%◌, ◌^◌, ◌≤◌, ◌<◌, ◌≡◌, refl, arith, min, u64_mod,
}

-- `SECTOR_SIZE`
abbrev pub sector_size : ℕ
sector_size = 4096

-- `(size + SECTOR_SIZE - 1) & !(SECTOR_SIZE - 1)` on a 64-bit usize
unfoldable pub rounded_size : ℕ → ℕ
rounded_size size = bit_and ((size + sector_size - 1) % u64_mod) (u64_mod - 1 - (sector_size - 1))

-- `bit_and` from its definition: `a` is also the number of binary digits that it looks at.
abbrev and_digits : ℕ → ℕ → ℕ → ℕ
and_digits n a b = digits (λ b. zero) min n a b

-- More digits than needed change nothing.
and_digits_enough : (n m a b : ℕ) → a ≤ n → a ≤ m → and_digits n a b ≡ and_digits m a b
and_digits_enough n m zero b p q = elim_zero n m
  where
    elim_zero : (n m : ℕ) → and_digits n 0 b ≡ and_digits m 0 b
    elim_zero zero zero = refl
    elim_zero zero (suc m) = refl
    elim_zero (suc n) zero = refl
    elim_zero (suc n) (suc m) = refl
and_digits_enough zero m (suc a) b p q = absurd (omega arith)
and_digits_enough (suc n) zero (suc a) b p q = absurd (omega arith)
and_digits_enough (suc n) (suc m) (suc a) b p q =
    omega (arith, and_digits_enough n m (suc a / 2) (b / 2) (omega arith) (omega arith))

zero-bit_and : (b : ℕ) → bit_and 0 b ≡ 0
zero-bit_and b = bit_and-bitwise 0 b

-- One binary digit at a time.
bit_and_lowest : (a b : ℕ) → bit_and a b ≡ 2 * bit_and (a / 2) (b / 2) + min (a % 2) (b % 2)
bit_and_lowest zero b = omega (arith, zero-bit_and b, zero-bit_and (b / 2))
bit_and_lowest (suc a) b = omega (
  arith,
  bit_and-bitwise (suc a) b,
  bit_and-bitwise (suc a / 2) (b / 2),
  and_digits_enough a (suc a / 2) (suc a / 2) (b / 2) (omega arith) (omega arith),
)

-- `k` binary ones.
ones : ℕ → ℕ
ones zero = 0
ones (suc k) = 2 * ones k + 1

bit_and-ones : (k a : ℕ) → a ≤ ones k → bit_and a (ones k) ≡ a
unfolding ones
bit_and-ones zero a h = let e : a ≡ 0 = omega arith in rw e (zero-bit_and 0)
bit_and-ones (suc k) a h =
    let half : (2 * ones k + 1) / 2 ≡ ones k = omega arith in
    omega
      (arith, rw half at (bit_and_lowest a (2 * ones k + 1)), bit_and-ones k (a / 2) (omega arith))

-- A mask that ends in a zero drops the lowest digit.
bit_and_even : (a m : ℕ) → bit_and a (2 * m) ≡ 2 * bit_and (a / 2) m
bit_and_even a m =
    let half : 2 * m / 2 ≡ m = omega arith in omega (arith, rw half at (bit_and_lowest a (2 * m)))

-- Four zeros at the end of the mask.
bit_and_sixteen : (a m : ℕ) → bit_and a (16 * m) ≡ 16 * bit_and (a / 16) m
bit_and_sixteen a m =
    let by_eight : 16 * m ≡ 2 * (2 * (2 * (2 * m))) = omega arith in
    let quotient : a / 2 / 2 / 2 / 2 ≡ a / 16 = omega arith in
    rw
      (
        by_eight,
        bit_and_even a (2 * (2 * (2 * m))),
        bit_and_even (a / 2) (2 * (2 * m)),
        bit_and_even (a / 2 / 2) (2 * m),
        bit_and_even (a / 2 / 2 / 2) m,
        quotient,
      )
      (omega arith)

-- The sector mask, whose ones begin at the thirteenth digit.
bit_and_sectors :
    (a : ℕ) → a < u64_mod → bit_and a (u64_mod - 1 - (sector_size - 1)) ≡ a / 4096 * 4096
unfolding ones
bit_and_sectors a h =
    let mask : u64_mod - 1 - (sector_size - 1) ≡ 16 * (16 * (16 * ones 52)) = refl in
    let quotient : a / 16 / 16 / 16 ≡ a / 4096 = omega arith in
    rw
      (
        mask,
        bit_and_sixteen a (16 * (16 * ones 52)),
        bit_and_sixteen (a / 16) (16 * ones 52),
        bit_and_sixteen (a / 16 / 16) (ones 52),
        bit_and-ones 52 (a / 16 / 16 / 16) (omega arith),
        quotient,
      )
      (omega arith)

-- A size that leaves room for the rounding in 64 bits is rounded up, by less than a sector, to a
-- multiple of the sector size.
pub rounded_size_bounds :
    (size : ℕ)
    → size + 4095 < 2 ^ 64
    → (size ≤ rounded_size size)
      × (rounded_size size < size + 4096)
      × (rounded_size size % 4096 ≡ 0)
unfolding rounded_size
rounded_size_bounds size h =
    rw (bit_and_sectors ((size + sector_size - 1) % u64_mod) (omega arith)) (omega arith)
