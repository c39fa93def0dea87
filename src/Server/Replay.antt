-- ===== src/Server/Replay.antt =====
-- raft-server/src/storage.rs: the loop of `replay_wal` on any contents of the log file.
use raft_rupee.Base.{
  ℕ, zero, suc, ◌+◌, ◌-◌, ◌<◌, ◌≡◌, ◌≢◌, refl, sym, ap, ◌∙◌, inl, inr, List, [], ◌∷◌, ◌++◌, none,
  some, arith, length, drop, Option-cases, All, drop-append, drop-drop, length-drop, length-append,
  append_assoc, append-nil, All-drop,
}
use raft_rupee.Message.{Bytes, LogEntry}
use raft_rupee.Server.Bytes.{IsByte}
use raft_rupee.Server.Os.{System, IsSystem}
use raft_rupee.Server.Storage.{encode_entry, encode, read_entry, replay_loop, replay}
use raft_rupee.Server.Entry.{IsEntry, length-encode_entry, read_entry-drop, read_entry-encode_entry}
use raft_rupee.Server.Found.{read_entry-found}

-- The entries that stand at the start of a file, one after another, as far as they go.
pub record Holds (os : System) (file : Bytes) (es : List LogEntry) (rest : Bytes) : Type 0 where
  pub split : encode os es ++ rest ≡ file
  pub are_entries : All IsEntry es
  pub no_more : (e : LogEntry) (tail : Bytes) → IsEntry e → encode_entry os e ++ tail ≢ rest

-- One round of the loop that reads an entry, and one that does not.
loop_reads :
    (os : System) (fuel : ℕ) (file : Bytes) (offset : ℕ) (acc : List LogEntry) (e : LogEntry)
    (taken : ℕ)
    → offset < length file
    → read_entry os file offset ≡ some (e, taken)
    → replay_loop os (suc fuel) file offset acc
      ≡ replay_loop os fuel file (offset + taken) (acc ++ (e ∷ []))
unfolding replay_loop
loop_reads os fuel file offset acc e taken h r = ground (arith, r)

pub loop_stops :
    (os : System) (fuel : ℕ) (file : Bytes) (offset : ℕ) (acc : List LogEntry)
    → read_entry os file offset ≡ none
    → replay_loop os (suc fuel) file offset acc ≡ some acc
unfolding replay_loop
loop_stops os fuel file offset acc r = ground arith

-- An entry that stands at an offset: what is read there, and what follows it.
module _ (os : System) (is_os : IsSystem os) (file : Bytes) (offset : ℕ) (e : LogEntry)
    (tail : Bytes) (is_e : IsEntry e) (stands : drop offset file ≡ encode_entry os e ++ tail) where
  reads_it : read_entry os file offset ≡ some (e, 24 + length e.command)
  reads_it =
      read_entry-drop os file offset
      ∙ ap (λ bs. read_entry os bs 0) stands
      ∙ read_entry-encode_entry os e tail is_os is_e

  in_file : offset < length file
  in_file = omega (
    arith,
    length-drop {0} offset file,
    ap length stands,
    length-append {0} (encode_entry os e) tail,
    length-encode_entry os e,
  )

  what_follows : drop (offset + (24 + length e.command)) file ≡ tail
  what_follows =
      let size : 24 + length e.command ≡ length (encode_entry os e) + 0 =
        omega (arith, length-encode_entry os e) in
      sym (drop-drop offset (24 + length e.command) file)
      ∙ ap (drop (24 + length e.command)) stands
      ∙ ap (λ k. drop k (encode_entry os e ++ tail)) size
      ∙ drop-append (encode_entry os e) tail 0

-- The loop takes the entries that stand at an offset, a round for each.
pub replay_loop-encode :
    (os : System) (file : Bytes) (es : List LogEntry) (rest : Bytes) (fuel offset : ℕ)
    (acc : List LogEntry)
    → IsSystem os
    → All IsEntry es
    → drop offset file ≡ encode os es ++ rest
    → (end : ℕ) × (drop end file ≡ rest)
      × (replay_loop os (length es + fuel) file offset acc
          ≡ replay_loop os fuel file end (acc ++ es))
unfolding encode
replay_loop-encode os file [] rest fuel offset acc is_os h stands =
    let e : 0 + fuel ≡ fuel = omega arith in (offset, stands, rw (e, append-nil acc) refl)
replay_loop-encode os file (e ∷ es) rest fuel offset acc is_os (h, hs) stands =
    let stands' = stands ∙ append_assoc (encode_entry os e) (encode os es) rest in
    let offset' = offset + (24 + length e.command) in
    let next = what_follows os is_os file offset e (encode os es ++ rest) h stands' in
    let (end, at_end, ih) =
      replay_loop-encode os file es rest fuel offset' (acc ++ (e ∷ [])) is_os hs next in
    let rounds : suc (length es) + fuel ≡ suc (length es + fuel) = omega arith in
    (
      end,
      at_end,
      ap (λ n. replay_loop os n file offset acc) rounds
          ∙ loop_reads os (length es + fuel) file offset acc e (24 + length e.command)
              (in_file os is_os file offset e (encode os es ++ rest) h stands')
              (reads_it os is_os file offset e (encode os es ++ rest) h stands')
          ∙ ih
          ∙ ap (replay_loop os fuel file end) (append_assoc acc (e ∷ []) es),
    )

-- Where no entry stands, nothing is read.
pub reads_none :
    (os : System) (rest : Bytes)
    → IsSystem os
    → All IsByte rest
    → ((e : LogEntry) (tail : Bytes) → IsEntry e → encode_entry os e ++ tail ≢ rest)
    → read_entry os rest 0 ≡ none
reads_none os rest is_os bytes no_more = elim (Option-cases (read_entry os rest 0)) [
  | inl h ↦ h
  | inr ((e, taken), h) ↦
      let (stands, is_e, _, _) = read_entry-found os rest e taken bytes h in
      absurd (no_more e (drop taken rest) is_e stands)
]

-- Where nothing is read, no entry stands.
none_stands :
    (os : System) (rest : Bytes)
    → IsSystem os
    → read_entry os rest 0 ≡ none
    → (e : LogEntry) (tail : Bytes) → IsEntry e
    → encode_entry os e ++ tail ≢ rest
none_stands os rest is_os h e tail is_e stands =
    cc (ap (λ bs. read_entry os bs 0) stands, h, read_entry-encode_entry os e tail is_os is_e)

-- With more rounds than bytes the loop ends, and it has read all that stands there.
replay_loop_ends :
    (os : System) (file : Bytes) (fuel offset : ℕ) (acc : List LogEntry)
    → IsSystem os
    → All IsByte file
    → length file - offset < fuel
    → (es : List LogEntry) × (rest : Bytes) × Holds os (drop offset file) es rest
      × (replay_loop os fuel file offset acc ≡ some (acc ++ es))
unfolding encode
replay_loop_ends os file zero offset acc is_os bytes h = absurd (omega arith)
replay_loop_ends os file (suc fuel) offset acc is_os bytes h =
    elim (Option-cases (read_entry os (drop offset file) 0)) [
      | inl stop ↦ (
        [],
        drop offset file,
        record {
          split = refl;
          are_entries = tt;
          no_more = none_stands os (drop offset file) is_os stop;
        },
        loop_stops os fuel file offset acc (read_entry-drop os file offset ∙ stop)
            ∙ ap some (sym (append-nil acc)),
      )
      | inr ((e, taken), found) ↦
          let (stands, is_e, size, within) =
            read_entry-found os (drop offset file) e taken (All-drop IsByte offset file bytes)
              found in
          let left = length-drop {0} offset file in
          let (es, rest, holds, ih) =
            replay_loop_ends os file fuel (offset + taken) (acc ++ (e ∷ [])) is_os bytes
              (omega (arith, left)) in
          (
            e ∷ es,
            rest,
            record {
              split =
                  append_assoc (encode_entry os e) (encode os es) rest
                  ∙ ap (λ bs. encode_entry os e ++ bs) holds.split
                  ∙ ap (λ bs. encode_entry os e ++ bs) (sym (drop-drop offset taken file))
                  ∙ stands;
              are_entries = (is_e, holds.are_entries);
              no_more = holds.no_more;
            },
            loop_reads os fuel file offset acc e taken (omega (arith, left))
                  (read_entry-drop os file offset ∙ found)
                ∙ ih
                ∙ ap some (append_assoc acc (e ∷ []) es),
          )
    ]

-- The replay of any log file ends, within as many rounds as the file has bytes and one more. It
-- yields entries that stand one after another from the start of the file on, each with a matching
-- checksum, and it stops only where no further entry stands.
pub replay_ends :
    (os : System) (file : Bytes)
    → IsSystem os
    → All IsByte file
    → (es : List LogEntry) × (rest : Bytes) × Holds os file es rest × (replay os file ≡ some es)
unfolding replay
replay_ends os file is_os bytes =
    replay_loop_ends os file (suc (length file)) 0 [] is_os bytes (omega arith)
