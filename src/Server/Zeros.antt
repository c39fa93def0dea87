-- ===== src/Server/Zeros.antt =====
-- raft-server/src/storage.rs: what `replay_wal` reads of zero bytes. The CRC-32 of no bytes is 0, so
-- 24 zero bytes are the bytes of an entry.
use raft_rupee.Base.{
  ℕ, zero, suc, ◌+◌, ◌-◌, ◌*◌, ◌/◌, ◌%◌, ◌<◌, ◌≡◌, refl, sym, ap, ◌∙◌, List, [], ◌∷◌, ◌++◌, some,
  arith, length, drop, All, length-append, append-nil,
}
use raft_rupee.Message.{Bytes, LogEntry}
use raft_rupee.Log.{base_entry}
use raft_rupee.Server.Bytes.{le_bytes, IsByte}
use raft_rupee.Server.Os.{System, IsSystem, cells}
use raft_rupee.Server.Storage.{encode_entry, encode, replay}
use raft_rupee.Server.Entry.{IsEntry, length-encode_entry}
use raft_rupee.Server.Contents.{Holds-replay, replay-encode}

unfoldable pub zeros : ℕ → Bytes
zeros zero = []
zeros (suc n) = 0 ∷ zeros n

pub cells-zeros : (f : ℕ → ℕ) (i n : ℕ) → ((k : ℕ) → f k ≡ 0) → cells f i n ≡ zeros n
unfolding cells zeros
cells-zeros f i zero h = refl
cells-zeros f i (suc n) h = rw (h i, cells-zeros f (i + 1) n h) refl

pub drop-zeros : (k n : ℕ) → drop k (zeros n) ≡ zeros (n - k)
unfolding zeros
drop-zeros zero n = ap zeros (omega arith)
drop-zeros (suc k) zero = let e : 0 - suc k ≡ 0 = omega arith in rw e refl
drop-zeros (suc k) (suc n) = drop-zeros k n ∙ ap zeros (omega arith)

zeros-append : (m n : ℕ) → zeros m ++ zeros n ≡ zeros (m + n)
unfolding zeros
zeros-append zero n = ap zeros (omega arith)
zeros-append (suc m) n =
    let e : suc m + n ≡ suc (m + n) = omega arith in rw e (ap (λ bs. 0 ∷ bs) (zeros-append m n))

length-zeros : (n : ℕ) → length (zeros n) ≡ n
unfolding zeros
length-zeros zero = refl
length-zeros (suc n) = omega (arith, length-zeros n)

zeros-IsByte : (n : ℕ) → All IsByte (zeros n)
unfolding zeros
zeros-IsByte zero = tt
zeros-IsByte (suc n) = (omega arith, zeros-IsByte n)

-- Entries of index 0 and term 0 that nobody wrote.
unfoldable pub phantoms : ℕ → List LogEntry
phantoms zero = []
phantoms (suc k) = base_entry 0 0 ∷ phantoms k

phantoms-IsEntry : (k : ℕ) → All IsEntry (phantoms k)
unfolding phantoms
phantoms-IsEntry zero = tt
phantoms-IsEntry (suc k) = (
  record {
    index_bound = omega arith;
    term_bound = omega arith;
    command_bound = omega arith;
    command_bytes = tt;
  },
  phantoms-IsEntry k,
)

module _ (os : System) (crc_of_none : os.crc32 [] ≡ 0) where
  phantom_bytes : encode_entry os (base_entry 0 0) ≡ zeros 24
  unfolding encode_entry le_bytes zeros
  phantom_bytes = rw crc_of_none refl

  encode-phantoms : (k : ℕ) → encode os (phantoms k) ≡ zeros (24 * k)
  unfolding encode phantoms
  encode-phantoms zero = unfold zeros in refl
  encode-phantoms (suc k) =
      let e : 24 + 24 * k ≡ 24 * suc k = omega arith in
      rw (phantom_bytes, encode-phantoms k) (zeros-append 24 (24 * k) ∙ ap zeros e)

  -- Less than an entry is no entry.
  replay_few : (n : ℕ) → IsSystem os → n < 24 → replay os (zeros n) ≡ some []
  unfolding encode
  replay_few n is_os h = Holds-replay os (zeros n) [] (zeros n) is_os (zeros-IsByte n) (record {
    split = refl;
    are_entries = tt;
    no_more = λ e tail is_e stands. omega (
      arith,
      ap length stands,
      length-append {0} (encode_entry os e) tail,
      length-encode_entry os e,
      length-zeros n,
    );
  })

  -- Every 24 zero bytes are read as an entry.
  pub replay-zeros : (n : ℕ) → IsSystem os → replay os (zeros n) ≡ some (phantoms (n / 24))
  replay-zeros n is_os =
      let k = n / 24 in
      let r = n % 24 in
      let whole : 24 * k + r ≡ n = omega arith in
      let split : encode os (phantoms k) ++ zeros r ≡ zeros n =
        ap (λ bs. bs ++ zeros r) (encode-phantoms k) ∙ zeros-append (24 * k) r ∙ ap zeros whole in
      sym (ap (replay os) split)
      ∙ replay-encode os (phantoms k) [] (zeros r) is_os (phantoms-IsEntry k) (zeros-IsByte r)
          (replay_few r is_os (omega arith))
      ∙ ap some (append-nil (phantoms k))

  -- Behind written entries as well.
  pub replay-encode-zeros :
      (es : List LogEntry) (n : ℕ)
      → IsSystem os
      → All IsEntry es
      → replay os (encode os es ++ zeros n) ≡ some (es ++ phantoms (n / 24))
  replay-encode-zeros es n is_os are_entries =
      replay-encode os es (phantoms (n / 24)) (zeros n) is_os are_entries (zeros-IsByte n)
        (replay-zeros n is_os)
