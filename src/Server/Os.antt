-- ===== src/Server/Os.antt =====
-- What raft-server/src/storage.rs uses of the operating system: its two files, memory that holds
-- whatever it held before, and system calls that can fail. `crc32fast::hash`, the contents of fresh
-- memory and the failures are parameters.
use raft_rupee.Base.{
  ℕ, zero, suc, ◌+◌, ◌<◌, ◌^◌, ◌≡◌, refl, Bool, [], ◌∷◌, arith, length, if◌then◌else◌, All,
}
use raft_rupee.Message.{Bytes}
use raft_rupee.Server.Bytes.{IsByte}

pub record System : Type 0 where
  -- `crc32fast::hash`
  pub crc32 : Bytes → ℕ
  -- The byte at each place of the memory that is allocated at a time.
  pub memory : ℕ → ℕ → ℕ
  -- Whether the system call made at a time fails.
  pub fails : ℕ → Bool

-- Checksums are 32-bit numbers, and memory holds bytes.
pub record IsSystem (os : System) : Type 0 where
  pub crc32_bound : (bs : Bytes) → os.crc32 bs < 2 ^ 32
  pub memory_bytes : (time i : ℕ) → os.memory time i < 256

-- The files of a `DurableDisk` by their contents; `time` counts the calls made so far. Both handles
-- of the log file, the one kept and the one that a replay opens, are to the same file.
pub record DurableDisk : Type 0 where
  pub hs_file : Bytes
  pub wal_file : Bytes
  pub time : ℕ

-- `std::io::Error`: from a system call, or made by this crate (`InvalidData`), and the two kinds that
-- a stream of the network gives.
pub data Error : Type 0 where
  last_os_error : Error
  invalid_data : Error
  would_block : Error
  unexpected_eof : Error

-- `std::io::Result`; `stuck` is no Rust value: the fuel of a loop ran out.
pub data Result {ℓ} (A : Type ℓ) : Type ℓ where
  ok : A → Result A
  err : Error → Result A
  stuck : Result A

-- An operation on a state. An error keeps what has been changed before it.
abbrev pub Op : Type 0 → Type 0 → Type 0
Op S A = S → Result A × S

abbrev pub M : Type 0 → Type 0
M = Op DurableDisk

abbrev pub and_then : {S A B : Type 0} → Result A × S → (A → Op S B) → Result B × S
and_then (ok a, s) f = f a s
and_then (err e, s) f = (err e, s)
and_then (stuck, s) f = (stuck, s)

abbrev pub pure : {S A : Type 0} → A → Op S A
pure a s = (ok a, s)

infixl 5 ◌>>=◌ ◌>>◌
abbrev pub ◌>>=◌ : {S A B : Type 0} → Op S A → (A → Op S B) → Op S B
◌>>=◌ m f d = and_then (m d) f

abbrev pub ◌>>◌ : {S B : Type 0} → Op S (Unit {0}) → Op S B → Op S B
m >> k = m >>= λ _. k

abbrev pub later : DurableDisk → DurableDisk
later d = record d { time = d.time + 1 }

-- A system call that answers -1 or not.
unfoldable pub call : System → M (Unit {0})
call os d = if os.fails d.time then (err last_os_error, later d) else (ok tt, later d)

unfoldable pub cells : (ℕ → ℕ) → ℕ → ℕ → Bytes
cells f i zero = []
cells f i (suc n) = f i ∷ cells f (i + 1) n

pub length-cells : (f : ℕ → ℕ) (i n : ℕ) → length (cells f i n) ≡ n
unfolding cells
length-cells f i zero = refl
length-cells f i (suc n) = omega (arith, length-cells f (i + 1) n)

pub cells-IsByte : (f : ℕ → ℕ) → ((i : ℕ) → f i < 256) → (i n : ℕ) → All IsByte (cells f i n)
unfolding cells
cells-IsByte f h i zero = tt
cells-IsByte f h i (suc n) = (h i, cells-IsByte f h (i + 1) n)

-- The file system's part of a call: reads and writes of whole files. A call that succeeds transfers
-- all its bytes.
unfoldable pub get_hs : M Bytes
get_hs d = (ok d.hs_file, d)

unfoldable pub set_hs : Bytes → M (Unit {0})
set_hs bs d = (ok tt, record d { hs_file = bs })

unfoldable pub get_wal : M Bytes
get_wal d = (ok d.wal_file, d)

unfoldable pub set_wal : Bytes → M (Unit {0})
set_wal bs d = (ok tt, record d { wal_file = bs })

-- How a sequence goes on after a success, and how it ends at an error.
pub and_then_ok :
    {S A B : Type 0} (m : Result A × S) (f : A → Op S B) {a : A}
    → m.0 ≡ ok a
    → and_then m f ≡ f a m.1
and_then_ok (ok b, d) f h = cc
and_then_ok (err e, d) f h = cc
and_then_ok (stuck, d) f h = cc

pub and_then_err :
    {S A B : Type 0} (m : Result A × S) (f : A → Op S B) {e : Error}
    → m.0 ≡ err e
    → and_then m f ≡ (err e, m.1)
and_then_err (ok b, d) f h = cc
and_then_err (err e, d) f h = cc
and_then_err (stuck, d) f h = cc
