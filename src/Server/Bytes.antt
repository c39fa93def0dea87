-- ===== src/Server/Bytes.antt =====
-- Fixed-width integers as bytes: `to_le_bytes`, `from_le_bytes`, `to_be_bytes` and `from_be_bytes` of
-- the standard library, for any number of bytes.
use mathlib.Core.List.{reverse}
use raft_rupee.Base.{
  ℕ, zero, suc, ◌+◌, ◌*◌, ◌/◌, ◌%◌, ◌^◌, ◌<◌, ◌≡◌, refl, [], ◌∷◌, arith, length, All, ap,
}
use raft_rupee.Message.{Bytes}

abbrev pub IsByte : ℕ → Type 0
IsByte b = b < 256

-- The `w` lowest bytes of `v`, the lowest first.
unfoldable pub le_bytes : ℕ → ℕ → Bytes
le_bytes zero v = []
le_bytes (suc w) v = (v % 256) ∷ le_bytes w (v / 256)

unfoldable pub from_le_bytes : Bytes → ℕ
from_le_bytes [] = 0
from_le_bytes (b ∷ bs) = b + 256 * from_le_bytes bs

-- The numbers that `w` bytes hold.
unfoldable pub room : ℕ → ℕ
room zero = 1
room (suc w) = 256 * room w

pub from_le_bytes-le_bytes : (w v : ℕ) → v < room w → from_le_bytes (le_bytes w v) ≡ v
unfolding le_bytes from_le_bytes room
from_le_bytes-le_bytes zero v h = omega arith
from_le_bytes-le_bytes (suc w) v h = omega (arith, from_le_bytes-le_bytes w (v / 256) (omega arith))

pub length-le_bytes : (w v : ℕ) → length (le_bytes w v) ≡ w
unfolding le_bytes
length-le_bytes zero v = refl
length-le_bytes (suc w) v = omega (arith, length-le_bytes w (v / 256))

pub le_bytes-from_le_bytes :
    (bs : Bytes) → All IsByte bs → le_bytes (length bs) (from_le_bytes bs) ≡ bs
unfolding le_bytes from_le_bytes
le_bytes-from_le_bytes [] h = refl
le_bytes-from_le_bytes (b ∷ bs) (h, hs) =
    let low : (b + 256 * from_le_bytes bs) % 256 ≡ b = omega arith in
    let high : (b + 256 * from_le_bytes bs) / 256 ≡ from_le_bytes bs = omega arith in
    rw (low, high) (ap (λ l. b ∷ l) (le_bytes-from_le_bytes bs hs))

pub from_le_bytes-lt : (bs : Bytes) → All IsByte bs → from_le_bytes bs < room (length bs)
unfolding from_le_bytes room
from_le_bytes-lt [] h = omega arith
from_le_bytes-lt (b ∷ bs) (h, hs) = omega (arith, from_le_bytes-lt bs hs)

-- u64 and u32.
pub read_u64 : (v : ℕ) → v < 2 ^ 64 → from_le_bytes (le_bytes 8 v) ≡ v
unfolding room
read_u64 v h = from_le_bytes-le_bytes 8 v h

pub read_u32 : (v : ℕ) → v < 2 ^ 32 → from_le_bytes (le_bytes 4 v) ≡ v
unfolding room
read_u32 v h = from_le_bytes-le_bytes 4 v h

unfoldable pub be_bytes : ℕ → ℕ → Bytes
be_bytes w v = reverse (le_bytes w v)

unfoldable pub from_be_bytes : Bytes → ℕ
from_be_bytes bs = from_le_bytes (reverse bs)
